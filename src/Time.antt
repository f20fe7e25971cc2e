-- ===== src/Time.antt =====
-- `convert_time` of src/escp/sender.rs: durations for the progress bar and the summary.
pub mod Clock
pub mod Tests
use escp.Base.{
  ℕ, ◌/◌, ◌%◌, ◌*◌, Bool, true, false, [], ◌∷◌, ◌++◌, Text, codes, ltb, drop, if◌then◌else◌,
}
use escp.Str.Decimal.{to_string}

-- `{:02}`
pad2 : ℕ → Text
pad2 n = if ltb n 10 then b'0' ∷ to_string n else to_string n

-- The branch that is not precise: `t` is the duration cut to whole seconds.
coarse : ℕ → Text
coarse t =
    if ltb 3600 t
    then pad2 (t / 3600) ++ b':' ∷ (pad2 (t / 60 % 60) ++ b':' ∷ pad2 (t % 60))
    else pad2 (t / 60) ++ b':' ∷ pad2 (t % 60)

-- The precise branch. `three` and `two` are the prints of the fraction of a second with `{:0.03}`
-- and `{:0.02}`; `split_at(3)` keeps what follows the first three bytes.
precise : ℕ → Text → Text → Text
precise t three two =
    let suffix = drop 3 three in
    if ltb t 60
    then to_string t ++ b'.' ∷ (suffix ++ codes "s")
    else if ltb t 3600
    then to_string (t / 60) ++ b':' ∷ (to_string (t % 60) ++ b'.' ∷ suffix)
    else pad2 (t / 3600) ++ b':' ∷ (pad2 (t / 60 % 60) ++ b':' ∷ (pad2 (t % 60) ++ b'.' ∷ two))

-- For a duration that is not negative.
pub convert_time : ℕ → Text → Text → Bool → Text
convert_time t three two true = precise t three two
convert_time t three two false = coarse t
