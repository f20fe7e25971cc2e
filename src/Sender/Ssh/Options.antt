-- ===== src/Sender/Ssh/Options.antt =====
-- Every option that the flags ask for is on the command line of ssh.
use escp.Base.{
  ◌≡◌, refl, sym, ap, ◌∙◌, ◌⊎◌, inl, inr, Bool, true, false, List, [], ◌∷◌, ◌++◌, append_assoc,
  append-nil, Text, codes,
}
use escp.Config.Flags.{Flags}
use escp.Sender.Ssh.{given, on, options}

-- The words stand together somewhere among the others.
pub record Block (us ws : List Text) : Type 0 where
  pub left : List Text
  pub right : List Text
  pub split : ws ≡ left ++ (us ++ right)

abbrev pub Given : Text → Text → List Text → Type 0
Given option value ws = (value ≡ []) ⊎ Block (option ∷ value ∷ []) ws

abbrev pub On : Bool → List Text → List Text → Type 0
On b us ws = (b ≡ false) ⊎ Block us ws

-- Each option with its value, if the flag is not empty, and each that stands alone, if it is set.
pub record Complete (f : Flags) (ws : List Text) : Type 0 where
  pub identity : Given (codes "-i") f.identity ws
  pub ssh_option : Given (codes "-o") f.ssh_option ws
  pub ipv4 : On f.ipv4 (codes "-4" ∷ []) ws
  pub ipv6 : On f.ipv6 (codes "-6" ∷ []) ws
  pub batch_mode : On f.batch_mode (codes "-o" ∷ codes "BatchMode=True" ∷ []) ws
  pub ssh_config : Given (codes "-F") f.ssh_config ws
  pub jump_host : Given (codes "-J") f.jump_host ws
  pub cipher : Given (codes "-c") f.cipher ws
  pub agent : On f.agent (codes "-A" ∷ []) ws

given-Given : (option value : Text) → Given option value (given option value)
unfolding given
given-Given option [] = inl refl
given-Given option (c ∷ value) = inr (record { left = []; right = []; split = refl })

on-On : (b : Bool) (us : List Text) → On b us (on b us)
unfolding on
on-On true us = inr (record { left = []; right = []; split = sym (append-nil us) })
on-On false us = inl refl

module _ {P : Type 0} {us : List Text} where
  -- More words behind them, or before them.
  behind : {ws : List Text} → P ⊎ Block us ws → (vs : List Text) → P ⊎ Block us (ws ++ vs)
  behind (inl p) vs = inl p
  behind (inr k) vs = inr (record {
    left = k.left;
    right = k.right ++ vs;
    split =
        ap (λ x. x ++ vs) k.split
        ∙ append_assoc k.left (us ++ k.right) vs
        ∙ ap (λ x. k.left ++ x) (append_assoc us k.right vs);
  })

  before : {ws : List Text} (vs : List Text) → P ⊎ Block us ws → P ⊎ Block us (vs ++ ws)
  before vs (inl p) = inl p
  before vs (inr k) = inr (record {
    left = vs ++ k.left;
    right = k.right;
    split = ap (λ x. vs ++ x) k.split ∙ sym (append_assoc vs k.left (us ++ k.right));
  })

module _ (f : Flags) where
  -- The words behind those for one flag, from there to the end.
  module _ {P : Type 0} {us ws : List Text} where
    to_agent : P ⊎ Block us ws → P ⊎ Block us (ws ++ on f.agent (codes "-A" ∷ []))
    to_agent h = behind h (on f.agent (codes "-A" ∷ []))

  module _ {P : Type 0} {us ws : List Text} where
    from_cipher :
        P ⊎ Block us ws
        → P ⊎ Block us (ws ++ given (codes "-c") f.cipher ++ on f.agent (codes "-A" ∷ []))
    from_cipher h = to_agent (behind h (given (codes "-c") f.cipher))

  module _ {P : Type 0} {us ws : List Text} where
    from_jump :
        P ⊎ Block us ws
        → P
          ⊎ Block us (
              ws
              ++ given (codes "-J") f.jump_host
              ++ given (codes "-c") f.cipher
              ++ on f.agent (codes "-A" ∷ []))
    from_jump h = from_cipher (behind h (given (codes "-J") f.jump_host))

  module _ {P : Type 0} {us ws : List Text} where
    from_config :
        P ⊎ Block us ws
        → P
          ⊎ Block us (
              ws
              ++ given (codes "-F") f.ssh_config
              ++ given (codes "-J") f.jump_host
              ++ given (codes "-c") f.cipher
              ++ on f.agent (codes "-A" ∷ []))
    from_config h = from_jump (behind h (given (codes "-F") f.ssh_config))

  pub options-Complete : Complete f (options f)
  unfolding options
  options-Complete =
      let batch = on f.batch_mode (codes "-o" ∷ codes "BatchMode=True" ∷ []) in
      let v4 = on f.ipv4 (codes "-4" ∷ []) in
      let v6 = on f.ipv6 (codes "-6" ∷ []) in
      let opt = given (codes "-o") f.ssh_option in
      let tty = codes "-t" ∷ [] in
      record {
        identity = from_config (
            behind
              (behind (behind (behind (behind (given-Given (codes "-i") f.identity) tty) opt) v4)
                v6)
              batch);
        ssh_option = from_config (
            behind (behind (behind (before _ (given-Given (codes "-o") f.ssh_option)) v4) v6)
              batch);
        ipv4 = from_config (behind (behind (before _ (on-On f.ipv4 (codes "-4" ∷ []))) v6) batch);
        ipv6 = from_config (behind (before _ (on-On f.ipv6 (codes "-6" ∷ []))) batch);
        batch_mode =
            from_config (before _ (on-On f.batch_mode (codes "-o" ∷ codes "BatchMode=True" ∷ [])));
        ssh_config = from_jump (before _ (given-Given (codes "-F") f.ssh_config));
        jump_host = from_cipher (before _ (given-Given (codes "-J") f.jump_host));
        cipher = to_agent (before _ (given-Given (codes "-c") f.cipher));
        agent = before _ (on-On f.agent (codes "-A" ∷ []));
      }
