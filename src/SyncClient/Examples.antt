-- ===== src/SyncClient/Examples.antt =====
-- A client of a server that accepts one type of credentials; the world counts the calls.
use objectbox_go.Base.{
  ℕ, suc, ◌==◌, ◌≡◌, ◌⊎◌, refl, true, false, [], ◌∷◌, none, some, if◌then◌else◌, ok, err, pure,
  message_with_int, arith,
}
use objectbox_go.Base.Int.{pos, negsuc}
use objectbox_go.Callbacks.{Callable, void_callback, full_queue, register, next_id}
use objectbox_go.Slots.{find_slot}
use objectbox_go.SyncClient.{
  SyncApi, SyncStore, SyncState, credentials_none, credentials_shared_secret, close, wait_for_login,
}
use objectbox_go.SyncClient.Open.{new_sync_client, one_client}
use objectbox_go.SyncClient.Listeners.{set_listener, set_login_listener}
use objectbox_go.SyncClient.Swapped.{IsLive, Replaced, Removed}
use objectbox_go.SyncClient.Numbers.{Kept, ids, set_listener-IsLive}
use objectbox_go.SyncClient.Closed.{Closed, close-Closed}
use objectbox_go.SyncClient.Opened.{Failed, Opened, new_sync_client-Opened}

abbrev server : SyncApi ℕ
server = record {
  errors = record { last_error_message = λ w. some "refused" };
  has_sync = true;
  sync = λ uri w. (some 7, suc w);
  close = λ pointer w. (0, suc w);
  credentials = λ pointer kind bytes size w. ((if kind == 2 then 0 else 10001), suc w);
  request_updates_mode = λ pointer mode w. (0, suc w);
  state = λ pointer w. 1;
  start = λ pointer w. (0, suc w);
  stop = λ pointer w. (0, suc w);
  wait_for_logged_in_state = λ pointer timeout w. (1002, suc w);
  updates_request = λ pointer also w. (0, suc w);
  updates_cancel = λ pointer w. (0, suc w);
  listener = λ index pointer id w. suc w;
}

abbrev tick : Callable ℕ
tick = void_callback suc

abbrev fresh : SyncStore ℕ ℕ
fresh = record { has_client = false; registry = record { last_id = 0; callbacks = [] }; world = 0 }

-- A client with a listener for logins, under the number 5.
abbrev online : SyncState ℕ ℕ
online = record {
  client = record {
    c_client = some 7;
    started = false;
    c_callbacks = λ i. if i == 2 then 5 else 0;
  };
  store = record {
    has_client = true;
    registry = record { last_id = 5; callbacks = (5, tick) ∷ (4, tick) ∷ [] };
    world = 2;
  };
}

refused :
    (new_sync_client server "ws://127.0.0.1" (some credentials_none) fresh).1.has_client ≡ false
unfolding new_sync_client
refused = refl

timed_out : (wait_for_login server (pos 5000000) online).0 ≡ ok false
unfolding wait_for_login
timed_out = refl

negative :
    (wait_for_login server (negsuc 4999999) online).0
    ≡ err (message_with_int "timeout must be >= 1 millisecond, %d given" (negsuc 4))
unfolding wait_for_login
negative = refl

-- The listener for logins moves from the number 5 to the number 6.
moved : (set_login_listener server (some suc) online).1.client.c_callbacks 2 ≡ 6
unfolding set_login_listener find_slot next_id register
moved = refl

online-IsLive : IsLive (ids online) online.store.registry
online-IsLive = record {
  last = omega arith;
  number = λ i b. ground arith;
  taken = λ i b h. ground (arith, h);
  distinct = λ i j b c d h. λ e. ground (arith, h, d, e);
}

set_listener-IsLive_example :
    (let s' = (set_listener server 2 (some tick) online).1 in
      (((set_listener server 2 (some tick) online).0 ≡ ok tt)
        × Replaced 2 tick (ids online) (ids s') online.store.registry s'.store.registry)
      ⊎ (((set_listener server 2 (some tick) online).0 ≡ err full_queue) × Kept online s'))
    × (let s' = (set_listener server 2 none online).1 in
        ((set_listener server 2 none online).0 ≡ ok tt)
        × Removed 2 (ids online) online.store.registry s'.store.registry
        × (ids s' ≡ ids online))
set_listener-IsLive_example = set_listener-IsLive server 2 (omega arith) online tick online-IsLive

close-Closed_example :
    Closed server 7 online (close server online).1
    × (close server (close server online).1 ≡ pure tt (close server online).1)
close-Closed_example = close-Closed server online 7 refl online-IsLive.number

new_sync_client-Opened_example :
    (false ≡ true
      → new_sync_client server "ws://127.0.0.1" (some (credentials_shared_secret (1 ∷ []))) fresh
        ≡ ((none, some one_client), fresh))
    × (false ≡ false
        → Failed fresh.registry (
            new_sync_client server "ws://127.0.0.1"
              (some (credentials_shared_secret (1 ∷ [])))
              fresh)
          ⊎ ((pointer : ℕ) × (some 7 ≡ some pointer)
              × Opened fresh.registry pointer (
                  new_sync_client server "ws://127.0.0.1"
                    (some (credentials_shared_secret (1 ∷ [])))
                    fresh)))
new_sync_client-Opened_example =
    new_sync_client-Opened server "ws://127.0.0.1" (some (credentials_shared_secret (1 ∷ []))) fresh
