-- ===== src/Tests/WiringTests.antt =====
-- malipo.go and auth/daraja.go at concrete configurations and answers.
use malipo.Base.{false, List, ◌+◌, ◌*◌, ◌≤◌, ◌⊎◌, String, ◌≡◌, refl, ◌↔◌, true, none, some, [], ◌∷◌}
use malipo.Base.Int.{pos}
use malipo.Base.Lists.{codes, length}
use malipo.Store.Session.{StkPushRequest}
use malipo.Store.Error.{Result, ok}
use malipo.Sqlite.Defs.{Table}
use malipo.Sqlite.Open.{new_sqlite_adapter}
use malipo.Auth as Auth
use malipo.Auth.Daraja.{Outside, StkPushResponse, send_stk_push}
use malipo.Auth.Requests.{PushExchanged, send_stk_push_ok_iff}
use malipo.Wiring.{Config, wire, new}
use malipo.Wiring.Ending.{one_ticks, steps_in, ticks_in, goroutines_end}
use malipo.Wiring.Shutdown.{
  Task, Process, Reaches, started, proceeds, spawns, stops, closes, done, then, OneProceeds, Run,
  ends, step, swept, quits_count, quits_pause, later, gone, sweeping, counting, expiring, ticks,
  this, shutdown_overtakes,
}
use malipo.Wiring.Start.{IsComplete, new_ok_iff}
use malipo.Tests.SqliteTests.{texts}

abbrev config : Config
config = record {
  consumer_key = "ck";
  consumer_secret = "cs";
  environment = "";
  shortcode = "174379";
  passkey = "key";
  callback_url = "https://example.com/callback";
  account_reference = "ref";
  transaction_desc = "desc";
  ttl = pos 0;
  query_threshold = pos 0;
  db_path = "";
}

abbrev open_db : String → Result (Table texts)
open_db path = new_sqlite_adapter texts none none none []

new_ok_iff_example : (new texts open_db config ≡ ok (wire config, [])) ↔ (
    IsComplete config
    × (open_db "./malipo.db" ≡ ok [])
    × (wire config ≡ record {
      auth = record { consumer_key = "ck"; consumer_secret = "cs"; environment = "sandbox" };
      manager = record {
        shortcode = "174379";
        passkey = "key";
        callback_url = "https://example.com/callback";
        ttl = pos 90000000000;
        query_threshold = pos 60000000000;
        account_reference = "ref";
        transaction_desc = "desc";
      };
      shortcode = "174379";
      stopped = false;
    }))
new_ok_iff_example = new_ok_iff texts open_db config (wire config) []

-- A service that answers every push with a refusal, with the status 200.
abbrev refusing : Outside
refusing = record {
  encode_base64 = λ t. t;
  format_int = λ n. "100";
  parse_int = λ t. some (pos 3599);
  show_status = λ n. "status";
  encode_push = λ b. ok "body";
  encode_query = λ b. ok "body";
  build = λ r. ok tt;
  send = λ r. ok (200, "answer");
  decode_token = λ t. ok ("token", "3599");
  decode_push = λ t. ok (record {
    checkout_request_id = "";
    merchant_request_id = "";
    response_code = "1";
    response_description = "refused";
  });
  decode_query = λ t. ok ("0", "done");
  nairobi = some "20250101000000";
  first_check = pos 1;
  second_check = pos 2;
  now = pos 3;
}

-- One that accepts every push.
abbrev pub accepting_daraja : Outside
accepting_daraja = record refusing {
  encode_base64 = λ t. "secret";
  decode_push = λ t. ok (record {
    checkout_request_id = "ws_2";
    merchant_request_id = "m_2";
    response_code = "0";
    response_description = "accepted";
  });
}

abbrev pub credentials : Auth.Config
credentials = record { consumer_key = "ck"; consumer_secret = "cs"; environment = "sandbox" }

abbrev push : StkPushRequest
push = record {
  token = "token";
  password = "password";
  timestamp = "20250101000000";
  phone = codes "+254712345678";
  amount = pos 100;
  shortcode = "174379";
  callback_url = "https://example.com/callback";
  reference = "ref";
  desc = "desc";
}

send_stk_push_ok_iff_example : (send_stk_push refusing credentials push ≡ ok ("", "")) ↔ (
    (result : StkPushResponse) × PushExchanged refusing credentials push result
    × (result.checkout_request_id ≡ "")
    × (result.merchant_request_id ≡ ""))
send_stk_push_ok_iff_example = send_stk_push_ok_iff refusing credentials push "" ""

-- Two timers past their `select`.
shutdown_overtakes_example : Reaches started (record {
  stopped = true;
  closed = true;
  tasks = expiring "s1" ∷ expiring "s2" ∷ sweeping ∷ [];
})
shutdown_overtakes_example = shutdown_overtakes ("s1" ∷ "s2" ∷ [])

-- The database is closed during a tick, while the timer of a payment runs.
abbrev overtaken : Process
overtaken = record { stopped = true; closed = true; tasks = counting "s1" ∷ sweeping ∷ [] }

overtaken_reached : Reaches started overtaken
overtaken_reached =
    then (proceeds (this ticks)) (then (spawns "s1") (then stops (then closes done)))

-- The cleanup goroutine takes one more tick before it sees the channel.
abbrev winding : Run overtaken.tasks (gone ∷ gone ∷ [])
winding = step (this (quits_count "s1" refl)) (
    step (later (this swept)) (
      step (later (this ticks))
        (step (later (this swept)) (step (later (this (quits_pause refl))) ends))))

goroutines_end_example :
    (overtaken.stopped ≡ true)
    × (steps_in winding ≤ 2 * length overtaken.tasks + 2 * ticks_in winding)
    × ((gone ∷ gone ∷ [] ≡ gone ∷ gone ∷ [])
        ⊎ ((vs : List Task) × ((s : OneProceeds true (gone ∷ gone ∷ []) vs) × (one_ticks s ≡ 0))))
goroutines_end_example = goroutines_end overtaken overtaken_reached refl winding
