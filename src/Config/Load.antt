-- ===== src/Config/Load.antt =====
-- Load of config.go: from the file and the environment to a configuration that was validated. The
-- file, os.ExpandEnv, the YAML parser and strconv.Atoi come from outside.
use go_on_call_agent.Prelude.{
  String, Bool, true, false, Option, none, some, ◌||◌, not, ◌<>◌, ◌≡◌, ◌≢◌, ◌⊎◌, inl, inr, refl,
  sym, ◌∙◌, ap, arith, if◌then◌else◌, eq_iff, Bool-cases, Option-cases,
}
use go_on_call_agent.Prelude.Int.{ℤ, pos, leb_ℤ}
use go_on_call_agent.Errors.{Error, plain, wrap, Result, ok, err, Result-cases}
use go_on_call_agent.Text.{trim_space}
use go_on_call_agent.Config.{Config, default}
use go_on_call_agent.Config.Validate.{Texts, is_empty, validate}

pub record Surroundings : Type 0 where
  pub read_file : Result String
  pub expand_env : String → String
  -- yaml.Unmarshal into the configuration, and the mode that the text gives, if it gives one.
  pub unmarshal : String → Config → Result Config
  pub explicit_mode : String → Result (Option String)
  pub server_port : String
  pub atoi : String → Result ℤ

unfoldable pub is_port : ℤ → Bool
is_port p = not (not (leb_ℤ (pos 1) p) || leb_ℤ (pos 65536) p)

module _ (T : Texts) (S : Surroundings) where
  open S use {read_file, expand_env, unmarshal, explicit_mode, server_port, atoi}

  -- fmt's %w of a nil error.
  unfoldable pub port_error : Result ℤ → Error
  port_error (ok _) = plain ("parse SERVER_PORT " <> T.quoted server_port <> ": %!w(<nil>)")
  port_error (err e) = wrap ("parse SERVER_PORT " <> T.quoted server_port <> ": ") e ""

  unfoldable pub put_port : Config → Result ℤ → Result Config
  put_port c (ok p) =
      if is_port p
      then ok (record c { server = record c.server { port = p } })
      else err (port_error (ok p))
  put_port c (err e) = err (port_error (err e))

  -- The environment's port overrides the file's.
  unfoldable pub override_port : Config → Result Config
  override_port c = if is_empty server_port then ok c else put_port c (atoi server_port)

  -- A verification mode that was left empty.
  unfoldable pub fill_mode : Config → Config
  fill_mode c =
      if is_empty c.verification.mode
      then record c { verification = record c.verification { mode = "mock" } }
      else c

  unfoldable pub validated : Config → Result Config
  validated c = elim (validate T c) [ none ↦ ok c | some e ↦ err e ]

  unfoldable pub after_port : Result Config → Result Config
  after_port (err e) = err e
  after_port (ok c) = validated (fill_mode c)

  unfoldable pub check_mode : Config → Result (Option String) → Result Config
  check_mode c (err e) = err (wrap "parse execution mode: " e "")
  check_mode c (ok none) = err (plain "execution.mode must be explicitly set to mock or http")
  check_mode c (ok (some mode)) =
      if is_empty (trim_space mode)
      then err (plain "execution.mode must be explicitly set to mock or http")
      else after_port (override_port c)

  unfoldable pub parsed : String → Result Config → Result Config
  parsed expanded (err e) = err (wrap "parse config: " e "")
  parsed expanded (ok c) = check_mode c (explicit_mode expanded)

  unfoldable pub expand : Result String → Result Config
  expand (err e) = err (wrap "read config: " e "")
  expand (ok content) =
      let expanded = expand_env content in parsed expanded (unmarshal expanded default)

  -- Load
  unfoldable pub load : Result Config
  load = expand read_file

-- The environment gives no port, or the configuration has it and it is one.
abbrev pub IsOverridden : Surroundings → Config → Type 0
IsOverridden S c =
    (S.server_port ≡ "")
    ⊎ ((p : ℤ) × (S.atoi S.server_port ≡ ok p)
        × (c.server.port ≡ p)
        × (leb_ℤ (pos 1) p ≡ true)
        × (leb_ℤ (pos 65536) p ≡ false))

same_port :
    (S : Surroundings) (c d : Config) → d.server ≡ c.server → IsOverridden S c → IsOverridden S d
same_port S c d same (inl unset) = inl unset
same_port S c d same (inr (p, number, port, low, high)) =
    inr (p, number, ap (λ s. s.port) same ∙ port, low, high)

-- What Load has checked of a configuration that it returns.
pub record IsLoaded (T : Texts) (S : Surroundings) (c : Config) : Type 0 where
  pub accepted : validate T c ≡ none
  pub mode_written :
      (content mode : String) × (S.read_file ≡ ok content)
      × (S.explicit_mode (S.expand_env content) ≡ ok (some mode))
      × (trim_space mode ≢ "")
  pub port : IsOverridden S c

is_empty-false : (s : String) → is_empty s ≡ false → s ≢ ""
is_empty-false s h = ground (arith, h, eq_iff s "")

validated-of_ok :
    (T : Texts) (S : Surroundings) (d c : Config)
    → validated T S d ≡ ok c
    → (validate T c ≡ none) × (d ≡ c)
unfolding validated
validated-of_ok T S d c h = elim (Option-cases (validate T d)) [
  | inl accepted ↦ ground (arith, h, accepted)
  | inr (e, refused) ↦ ground (arith, h, refused)
]

fill_mode_port : (T : Texts) (S : Surroundings) (c : Config) → (fill_mode T S c).server ≡ c.server
unfolding fill_mode
fill_mode_port T S c = ground arith

put_port-of_ok :
    (T : Texts) (S : Surroundings) (d e : Config) (p : ℤ)
    → put_port T S d (ok p) ≡ ok e
    → (is_port p ≡ true) × (record d { server = record d.server { port = p } } ≡ e)
unfolding put_port
put_port-of_ok T S d e p h = ground (arith, h)

is_port-bounds :
    (p : ℤ) → is_port p ≡ true → (leb_ℤ (pos 1) p ≡ true) × (leb_ℤ (pos 65536) p ≡ false)
unfolding is_port
is_port-bounds p h = ground (arith, h)

override_port-of_ok :
    (T : Texts) (S : Surroundings) (d e : Config) → override_port T S d ≡ ok e → IsOverridden S e
unfolding override_port put_port
override_port-of_ok T S d e h = elim (Bool-cases (is_empty S.server_port)) [
  | inl unset ↦ inl ((eq_iff S.server_port "").0 unset)
  | inr set ↦ elim (Result-cases (S.atoi S.server_port)) [
    | inl (p, number) ↦
        let put : put_port T S d (ok p) ≡ ok e = ground (arith, h, set, number) in
        let (port, same) = put_port-of_ok T S d e p put in
        let (low, high) = is_port-bounds p port in
        inr (p, number, ap (λ c. c.server.port) (sym same), low, high)
    | inr (cause, not_a_number) ↦ ground (arith, h, set, not_a_number)
  ]
]

after_port-of_ok :
    (T : Texts) (S : Surroundings) (r : Result Config) (c : Config)
    → after_port T S r ≡ ok c
    → (e : Config) × (r ≡ ok e) × (fill_mode T S e ≡ c) × (validate T c ≡ none)
unfolding after_port
after_port-of_ok T S (err e) c h = ground (arith, h)
after_port-of_ok T S (ok e) c h =
    let (accepted, same) = validated-of_ok T S (fill_mode T S e) c h in (e, refl, same, accepted)

check_mode-of_ok :
    (T : Texts) (S : Surroundings) (d c : Config) (r : Result (Option String))
    → check_mode T S d r ≡ ok c
    → (mode : String) × (r ≡ ok (some mode))
      × (trim_space mode ≢ "")
      × (after_port T S (override_port T S d) ≡ ok c)
unfolding check_mode
check_mode-of_ok T S d c (err e) h = ground (arith, h)
check_mode-of_ok T S d c (ok none) h = ground (arith, h)
check_mode-of_ok T S d c (ok (some mode)) h = elim (Bool-cases (is_empty (trim_space mode))) [
  | inl blank ↦ ground (arith, h, blank)
  | inr written ↦ (mode, refl, is_empty-false (trim_space mode) written, ground (arith, h, written))
]

-- A configuration that Load returns was accepted by Validate, the file that was read names, once its
-- variables are expanded, an execution mode that is not blank, and its port is that of SERVER_PORT, from 1 to 65535, wherever that variable is set.
pub load-IsLoaded : (T : Texts) (S : Surroundings) (c : Config) → load T S ≡ ok c → IsLoaded T S c
unfolding load expand parsed
load-IsLoaded T S c h = elim (Result-cases S.read_file) [
  | inr (cause, unread) ↦ ground (arith, h, unread)
  | inl (content, read) ↦
      let expanded = S.expand_env content in
      elim (Result-cases (S.unmarshal expanded default)) [
        | inr (cause, unparsed) ↦ ground (arith, h, read, unparsed)
        | inl (d, decoded) ↦
            let checked : check_mode T S d (S.explicit_mode expanded) ≡ ok c =
              ground (arith, h, read, decoded) in
            let (mode, given, written, rest) =
              check_mode-of_ok T S d c (S.explicit_mode expanded) checked in
            let (e, overridden, filled, accepted) =
              after_port-of_ok T S (override_port T S d) c rest in
            record {
              accepted = accepted;
              mode_written = (content, mode, read, given, written);
              port =
                  same_port S e c (ap (λ x. x.server) (sym filled) ∙ fill_mode_port T S e)
                    (override_port-of_ok T S d e overridden);
            }
      ]
]
