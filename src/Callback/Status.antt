-- ===== src/Callback/Status.antt =====
-- What the callback handler answers, and when it writes.
use malipo.Base.{◌≡◌, ◌≢◌, ◌↔◌, ◌⊎◌, inl, inr, Option, some, arith}
use malipo.Base.{eq_iff, Option-cases}
use malipo.Store.Session.{Bytes}
use malipo.Store.Adapter.{StorageAdapter}
use malipo.Session.Manager.{handle_callback}
use malipo.Callback.{FloatOps, StkCallback, CallbackRequest, build_update, serve_callback}

module _ (F : FloatOps) (A : StorageAdapter) (decode : Bytes → Option (StkCallback F))
    (r : CallbackRequest F) (between : A.Db → A.Db) (db : A.Db) where
  pub serve_callback_delivers :
      (cb : StkCallback F)
      → r.method ≡ "POST"
      → decode r.body ≡ some cb
      → cb.checkout_request_id ≢ ""
      → serve_callback F A decode r between db ≡ (
        200,
        (handle_callback A cb.checkout_request_id cb.result_code (build_update F cb) between db).1,
      )
  unfolding serve_callback
  serve_callback_delivers cb post decoded named =
      ground (arith, eq_iff r.method "POST", eq_iff cb.checkout_request_id "")

  -- The answer is 200 exactly for a POST whose body decodes and has a checkout ID, whatever the
  -- manager makes of it.
  pub serve_callback_200_iff : ((serve_callback F A decode r between db).0 ≡ 200) ↔ (
      (r.method ≡ "POST")
      × ((cb : StkCallback F) × (decode r.body ≡ some cb) × (cb.checkout_request_id ≢ "")))
  unfolding serve_callback
  serve_callback_200_iff = elim (Option-cases (decode r.body)) [
    | inl malformed ↦ ground (arith, eq_iff r.method "POST")
    | inr (cb, decoded) ↦ (
      λ h. (
        ground (arith, eq_iff r.method "POST"),
        (cb, decoded, ground (arith, eq_iff cb.checkout_request_id "")),
      ),
      λ h. ground (arith, eq_iff r.method "POST", eq_iff cb.checkout_request_id ""),
    )
  ]

  -- A request that is not answered 200 is answered 405 or 400 and leaves the store as it was.
  serve_callback_rejected :
      (serve_callback F A decode r between db).0 ≢ 200
      → (((serve_callback F A decode r between db).0 ≡ 405)
          ⊎ ((serve_callback F A decode r between db).0 ≡ 400))
        × ((serve_callback F A decode r between db).1 ≡ db)
  unfolding serve_callback
  serve_callback_rejected h = ground arith
