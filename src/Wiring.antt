-- ===== src/Wiring.antt =====
-- Package malipo (malipo.go): the configuration, and the program put together from its parts over SQLite.
-- What the service, the driver and the clock answer is an argument where a request is served.
pub mod Start
pub mod Service
pub mod Shutdown
pub mod Ending
use Prim.Native.String.{◌++◌}
use malipo.Base.{String, Bool, true, false, Option, none, some, str_eq, if◌then◌else◌}
use malipo.Base.Int.{ℤ}
use malipo.Store.Session.{Bytes, Duration}
use malipo.Store.Error.{Error, Result, ok, err, other, ◌>>=◌, ◌>>◌, wrap, reject_if}
use malipo.Sqlite.Clock.{TimeText}
use malipo.Sqlite.Defs.{Table}
use malipo.Sqlite.Open.{new_sqlite_adapter, close}
use malipo.Session.Manager as Manager
use malipo.Auth as Auth
use malipo.X402 as X402
use malipo.X402.{Request}
use malipo.Callback.{Handler, new_handler}

pub record Config : Type 0 where
  pub consumer_key : String
  pub consumer_secret : String
  pub environment : String
  pub shortcode : String
  pub passkey : String
  pub callback_url : String
  pub account_reference : String
  pub transaction_desc : String
  pub ttl : Duration
  pub query_threshold : Duration
  pub db_path : String

pub record GateOptions : Type 0 where
  pub amount : ℤ
  pub currency : String
  pub description : String
  pub phone_extractor : Option (Request → Result Bytes)

-- `Malipo`: the configurations of the two managers that `New` makes, the shortcode, and whether the
-- channel that stops the goroutines is closed. The database is the store that the methods are given.
pub record Malipo : Type 0 where
  pub auth : Auth.Config
  pub manager : Manager.Config
  pub shortcode : String
  pub stopped : Bool

-- The five required fields, in the order of their checks.
unfoldable pub validate : Config → Result (Unit {0})
validate cfg = do
  reject_if (str_eq cfg.consumer_key "") (other "malipo: ConsumerKey is required")
  reject_if (str_eq cfg.consumer_secret "") (other "malipo: ConsumerSecret is required")
  reject_if (str_eq cfg.shortcode "") (other "malipo: Shortcode is required")
  reject_if (str_eq cfg.passkey "") (other "malipo: Passkey is required")
  reject_if (str_eq cfg.callback_url "") (other "malipo: CallbackURL is required")

unfoldable pub db_path : Config → String
db_path cfg = if str_eq cfg.db_path "" then "./malipo.db" else cfg.db_path

-- What `New` makes of a valid configuration.
unfoldable pub wire : Config → Malipo
wire cfg = record {
  auth = Auth.with_environment (record {
    consumer_key = cfg.consumer_key;
    consumer_secret = cfg.consumer_secret;
    environment = cfg.environment;
  });
  manager = Manager.with_defaults (record {
    shortcode = cfg.shortcode;
    passkey = cfg.passkey;
    callback_url = cfg.callback_url;
    ttl = cfg.ttl;
    query_threshold = cfg.query_threshold;
    account_reference = cfg.account_reference;
    transaction_desc = cfg.transaction_desc;
  });
  shortcode = cfg.shortcode;
  stopped = false;
}

module _ (T : TimeText) where
  -- `New`; `open_db` is `NewSQLiteAdapter` at a path.
  unfoldable pub new : (String → Result (Table T)) → Config → Result (Malipo × Table T)
  unfolding validate
  new open_db cfg = do
    validate cfg
    db ← wrap "malipo: storage init failed: " (open_db (db_path cfg))
    ok (wire cfg, db)

-- `CallbackHandler`
unfoldable pub callback_handler : Malipo → Option Handler
callback_handler m = new_handler (some m.manager)

-- `Gate` up to the call of `x402.Gate`.
unfoldable pub gate : Malipo → GateOptions → X402.GateOptions
gate m opts = record {
  amount = opts.amount;
  currency = opts.currency;
  description = opts.description;
  shortcode = m.shortcode;
  manager = some m.manager;
  phone_extractor = opts.phone_extractor;
}

-- `Shutdown`: `none` is the panic of `Stop`. `closing` is what the driver answers.
unfoldable pub shutdown : Option String → Malipo → Option (Result (Unit {0}) × Malipo)
shutdown closing m = elim (Manager.stop m.stopped) [
  | none ↦ none
  | some stopped ↦ some (close closing, record m { stopped = stopped })
]
