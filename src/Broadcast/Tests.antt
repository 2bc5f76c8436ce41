-- ===== src/Broadcast/Tests.antt =====
-- Two servers that exchange a message, and the theorems of the exchange there.
use matterbridge.Base.{ℕ, ◌≡◌, refl, ◌⊎◌, true, false, none, some, List, [], ◌∷◌, ◌++◌, map, All}
use matterbridge.Broadcast.{
  WorkerMessage, BroadcastServer, emitted, timed_out, resolved, rejected_closed, receives,
  has_envelope, is_worker_request, is_worker_response, is_worker_response_of_type, has_string,
  stamped, request, respond, answers_to, fetch,
}
use matterbridge.Broadcast.Exchange.{IsUnrelated, SettlesAs, asking, fetch-respond, fetch-settles}

abbrev plugins : BroadcastServer
plugins = record { name = 112 ∷ []; is_closed = false }

abbrev devices : BroadcastServer
devices = record { name = 100 ∷ []; is_closed = false }

-- The type of the request, and a request of another thread, which answers nothing.
abbrev asked_type : List ℕ
asked_type = 116 ∷ []

abbrev question : WorkerMessage ℕ
question = asking asked_type devices.name none none none

abbrev stray : WorkerMessage ℕ
stray = asking asked_type plugins.name (some (109 ∷ [])) (some 5) (some 6)

stray-IsUnrelated : All (IsUnrelated (stamped plugins 100000000 7 question)) (emitted stray ∷ [])
unfolding answers_to is_worker_response_of_type is_worker_response has_envelope has_string stamped
stray-IsUnrelated = (refl, tt)

fetch-respond_example :
    (sent answer : WorkerMessage ℕ) × (request plugins 100000000 7 question ≡ some sent)
    × (is_worker_request sent ≡ true)
    × (receives devices sent ≡ true)
    × (respond devices 9 (record sent { result = some 3 }) ≡ some answer)
    × (receives plugins answer ≡ true)
    × (fetch plugins 100000000 7 question ((emitted stray ∷ []) ++ emitted answer ∷ timed_out ∷ [])
        ≡ some (resolved answer))
    × (answer.result ≡ some 3)
fetch-respond_example =
    fetch-respond plugins devices asked_type none none none 100000000 7 9 3 (emitted stray ∷ [])
      (timed_out ∷ []) refl refl stray-IsUnrelated

fetch-settles_example :
    ((plugins.is_closed ≡ true) × (fetch plugins 100000000 7 question [] ≡ some rejected_closed))
    ⊎ ((plugins.is_closed ≡ false)
        × SettlesAs
            (stamped plugins 100000000 7 question)
            (stray ∷ [])
            (fetch plugins 100000000 7 question (map emitted (stray ∷ []) ++ timed_out ∷ [])))
fetch-settles_example = fetch-settles plugins 100000000 7 question (stray ∷ []) []
