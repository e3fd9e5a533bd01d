-- ===== src/Wiring/Start.antt =====
-- malipo.go: when the program starts, and with what.
use malipo.Base.{false, str_eq, if◌then◌else◌}
use malipo.Base.Int.{pos, eqb_ℤ}
use malipo.Auth as Auth
use malipo.Session.Manager as Manager
use malipo.Base.{String, ◌≡◌, ◌≢◌, refl, ◌↔◌, none, some, inl, inr, arith, eq_iff, Option-cases}
use malipo.Store.Error.{Result, Result-cases, ok}
use malipo.Sqlite.Clock.{TimeText}
use malipo.Sqlite.Defs.{Table}
use malipo.Callback.{Handler, new_handler}
use malipo.X402.{new_gate}
use malipo.Wiring.{
  Config, GateOptions, Malipo, validate, db_path, wire, new, gate, callback_handler,
}

-- The five fields that a configuration must have.
pub record IsComplete (cfg : Config) : Type 0 where
  pub consumer_key : cfg.consumer_key ≢ ""
  pub consumer_secret : cfg.consumer_secret ≢ ""
  pub shortcode : cfg.shortcode ≢ ""
  pub passkey : cfg.passkey ≢ ""
  pub callback_url : cfg.callback_url ≢ ""

validate-IsComplete : (cfg : Config) → (validate cfg ≡ ok tt) ↔ IsComplete cfg
unfolding validate
validate-IsComplete cfg = (
  λ h. ground (
    arith,
    eq_iff cfg.consumer_key "",
    eq_iff cfg.consumer_secret "",
    eq_iff cfg.shortcode "",
    eq_iff cfg.passkey "",
    eq_iff cfg.callback_url "",
  ),
  λ v. ground (
    arith,
    eq_iff cfg.consumer_key "",
    eq_iff cfg.consumer_secret "",
    eq_iff cfg.shortcode "",
    eq_iff cfg.passkey "",
    eq_iff cfg.callback_url "",
  ),
)

module _ (T : TimeText) (open_db : String → Result (Table T)) (cfg : Config) where
  new_wired :
      (m : Malipo) (db : Table T)
      → (new T open_db cfg ≡ ok (m, db))
        ↔ (IsComplete cfg × (open_db (db_path cfg) ≡ ok db) × (m ≡ wire cfg))
  unfolding new
  new_wired m db = elim (Result-cases (validate cfg)) [
    | inl (e, p) ↦
        (λ h. absurd (ground arith), λ h. absurd (ground (arith, (validate-IsComplete cfg).1 h.0)))
    | inr (_, p) ↦ elim (Result-cases (open_db (db_path cfg))) [
      | inl (e, q) ↦ ground arith
      | inr (t, q) ↦
          (λ h. ((validate-IsComplete cfg).0 p, ground arith, ground arith), λ h. ground arith)
    ]
  ]

  -- `New` succeeds exactly if the five required fields are set and the database opens at its path, which is
  -- "./malipo.db" unless another is given; then the auth manager has the credentials and the environment,
  -- "sandbox" unless another is given, the session manager has the other fields, with a lifetime of 90
  -- seconds and a threshold of 60 seconds in place of a zero, and the shortcode is kept.
  pub new_ok_iff :
      (m : Malipo) (db : Table T)
      → (new T open_db cfg ≡ ok (m, db)) ↔ (
          IsComplete cfg
          × (open_db (if str_eq cfg.db_path "" then "./malipo.db" else cfg.db_path) ≡ ok db)
          × (m ≡ record {
            auth = record {
              consumer_key = cfg.consumer_key;
              consumer_secret = cfg.consumer_secret;
              environment = if str_eq cfg.environment "" then "sandbox" else cfg.environment;
            };
            manager = record {
              shortcode = cfg.shortcode;
              passkey = cfg.passkey;
              callback_url = cfg.callback_url;
              ttl = if eqb_ℤ cfg.ttl (pos 0) then pos 90000000000 else cfg.ttl;
              query_threshold =
                  if eqb_ℤ cfg.query_threshold (pos 0)
                  then pos 60000000000
                  else cfg.query_threshold;
              account_reference = cfg.account_reference;
              transaction_desc = cfg.transaction_desc;
            };
            shortcode = cfg.shortcode;
            stopped = false;
          }))
  unfolding db_path wire Auth.with_environment Manager.with_defaults
  new_ok_iff = new_wired

-- Of what a program mounts, the callback handler is always made, and it has the manager of `New`; the
-- gate panics exactly if it is given no way to find the phone.
mounted :
    (m : Malipo) (opts : GateOptions)
    → ((h : Handler) × (callback_handler m ≡ some h) × (h.manager ≡ m.manager))
      × ((new_gate (gate m opts) ≡ none) ↔ (opts.phone_extractor ≡ none))
unfolding callback_handler new_handler gate new_gate
mounted m opts = (
  (record { manager = m.manager }, refl, refl),
  elim (Option-cases opts.phone_extractor) [ inl e ↦ ground arith | inr (x, e) ↦ ground arith ],
)
