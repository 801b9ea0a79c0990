-- ===== src/Webhook/Tests.antt =====
-- Runs of the model of hub/webhook-guard.mjs.
use ainumbers_helm.Prelude.{
  ltb, none, if◌then◌else◌, str_eq, ◌+◌, ◌≡◌, refl, true, false, some, [], ◌∷◌, arith,
}
use ainumbers_helm.Prelude.Dict.{get}
use ainumbers_helm.Json.{str, obj, end, is_truthy}
use ainumbers_helm.Webhook.{
  admit, map_key, Response, get_idempotent_response, store_idempotent_response,
}
use ainumbers_helm.Webhook.Cache.{stored_response_answers}
use ainumbers_helm.Webhook.Replay.{Delivered, admit_all, no_replay, future_replay_admitted}

abbrev other : Delivered
other = record { timestamp = some 400000; nonce = str "m"; checked = 400001; consumed = 400001 }

admitted_run : (admit (some 100000) (str "n") 100100 100200 []).1 ≡ true
unfolding admit get is_truthy
admitted_run = refl

key_run : map_key (str "n") ≡ some "text:n"
unfolding map_key
key_run = refl

-- The repetition reads the clock at 400100 and, five milliseconds later, again.
no_replay_example :
    (admit
      (some 100000)
      (str "n")
      400100
      400105
      (admit_all (other ∷ []) (admit (some 100000) (str "n") 100100 100200 []).0)).1
    ≡ false
no_replay_example =
    no_replay 100000 100100 100200 400100 400105 (str "n") "text:n" [] (other ∷ []) key_run
      (omega arith) admitted_run (omega arith)

ahead_run : (admit (some 300000) (str "n") 99990 100000 []).1 ≡ true
unfolding admit get is_truthy
ahead_run = refl

-- Two hundred seconds ahead of the hub's clock, and again after five minutes.
future_replay_admitted_example :
    (admit
      (some 300000)
      (str "n")
      400001
      400001
      (admit (some 300000) (str "n") 99990 100000 []).0).1
    ≡ true
future_replay_admitted_example =
    future_replay_admitted 300000 99990 100000 400001 400001 (str "n") "text:n" [] key_run tt
      ahead_run (omega arith) (omega arith) (omega arith)

-- A nonce that is an object is admitted again and again.
object_run :
    (admit
      (some 100000)
      (obj end)
      100100
      100100
      (admit (some 100000) (obj end) 100000 100000 []).0).1
    ≡ true
unfolding admit get is_truthy
object_run = refl

abbrev done : Response
done = record { status = 200; body = "{}" }

stored_response_answers_example :
    (get_idempotent_response "k" 1500 (store_idempotent_response "k" done 1000 500 [])).1 ≡ (
      if str_eq "k" "k"
      then (if ltb (500 + 1000) 1500 then none else some done)
      else (get_idempotent_response "k" 1500 []).1)
stored_response_answers_example = stored_response_answers "k" "k" done 1000 500 1500 []
