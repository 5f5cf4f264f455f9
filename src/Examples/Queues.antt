-- ===== src/Examples/Queues.antt =====
-- Jobs in the queues, heartbeats, dead letters and the cache of the repository.

use queue_forge.Redis.Memory.{memory}
use queue_forge.Examples.Doubles.Dates.{plain_dates}
use queue_forge.Queue.Serializer.{
  both, Value, plain, text, date, obj, field, end, convert_dates, parse_dates,
}
use queue_forge.Queue.Serializer.Roundtrip.{IsDated, retyped, Clean, serializer_roundtrip}
use queue_forge.Security.Headers.{trim}
use queue_forge.Queue.Manager.{
  Job, Queues, in_delayed, infrastructure, refused, find_job, move_to_dlq, move_to_delayed,
}
use queue_forge.Queue.Manager.Moves.{total, Ends, moves_lose_refused}
use queue_forge.Worker.Heartbeat.{Heartbeat, direct, beats, start, is_alive, interval}
use queue_forge.Worker.Heartbeat.Expiry.{beats_keep_alive}
use queue_forge.Daemon.DeadLetters.{Dead, sort_top, error_of}
use queue_forge.Daemon.DeadLetters.Top.{IsRanked, Says, occurrences, sort_top_counts}
use queue_forge.Repository.IdempotencyCache.{find_by_composite_key, set, get_composite_key}
use queue_forge.Repository.IdempotencyCache.Cleaning.{delivery_of, find-set}
use queue_forge.Base.Maps.{find}
use queue_forge.Base.{
  List, Text, [], codes, false, length, min, none, refl, same_codes, some, suc, true, ℕ, ◌*◌, ◌++◌,
  ◌+◌, ◌<◌, ◌∷◌, ◌≡◌, ◌≤◌,
}

abbrev content : Value
content = obj (field (codes "at") (date 1700000000000) (field (codes "to") (text (codes "x")) end))

abbrev job : Job
job = record {
  id = codes "1";
  name = codes "d1";
  content = record {
    delivery_id = codes "d1";
    payload = obj (field (codes "n") (plain 1) end);
    dlq_reason = none;
  };
  delay = 100;
}

abbrev queues : Queues
queues = record { main = []; delayed = job ∷ []; dlq = [] }

moves_lose_refused_example :
    let (buried, e) = move_to_dlq plain_dates false (codes "7") (codes "1") (codes "full") queues in
    let (postponed, f) = move_to_delayed plain_dates false (codes "7") (codes "1") 500 queues in
    (false ≡ true
      → ((e ≡ none) × (f ≡ none))
        × ((total buried ≡ total queues) × (total postponed ≡ total queues))
        × (Ends buried.dlq (record job {
          id = codes "7";
          content = record job.content { dlq_reason = some (codes "full") };
          delay = 0;
        }))
        × (Ends postponed.delayed (record job { id = codes "7"; delay = 500 })))
    × (false ≡ false
        → ((e ≡ some refused) × (f ≡ some infrastructure))
          × ((suc (total buried) ≡ total queues) × (suc (total postponed) ≡ total queues)))
unfolding find_job convert_dates parse_dates both trim
moves_lose_refused_example =
    moves_lose_refused plain_dates false (codes "7") (codes "1") (codes "full") 500 queues job
      in_delayed (obj (field (codes "n") (plain 1) end)) refl refl refl

serializer_roundtrip_example :
    ((v : Value)
      → Clean v
      → (w : Value) × (convert_dates plain_dates v ≡ some w) × (parse_dates plain_dates w ≡ v))
    × ((v : Value)
        → IsDated v
        → (w : Value) × (convert_dates plain_dates v ≡ some w)
          × (parse_dates plain_dates w ≡ retyped plain_dates v))
serializer_roundtrip_example = serializer_roundtrip plain_dates

abbrev heart : Heartbeat
heart = record { worker_id = codes "w1"; client = direct; ttl_seconds = 120; running = false }

beats_keep_alive_example :
    let s = beats memory 2 1000 heart (start memory 1000 heart []).1 in
    (1000 + 2 * interval heart ≤ 90000
      → 90000 < 1000 + 2 * interval heart + 30000
      → is_alive memory 90000 direct (codes "w1") s ≡ true)
    × (120 < 90 → interval heart < 30000)
    × (90 < 120
        → (1000 + 2 * interval heart + 30000 < 1000 + 3 * interval heart)
          × (1000 + 2 * interval heart + 30000 < 90000
              → is_alive memory 90000 direct (codes "w1") s ≡ false))
beats_keep_alive_example = beats_keep_alive memory 2 1000 90000 heart [] refl refl refl

find-set_example :
    let s = set 1000 (codes "r") (codes "d") (codes "x1") 60 [] in
    let (after, o) = find_by_composite_key 2000 (codes "r") (codes "d") s in
    (2000 < 1000 + 60 * 1000 → (delivery_of o ≡ some (codes "x1")) × (after ≡ s))
    × (1000 + 60 * 1000 ≤ 2000
        → (o ≡ none) × (find (get_composite_key (codes "r") (codes "d")) after ≡ none))
    × ((r d : Text)
        → same_codes (get_composite_key (codes "r") (codes "d")) (get_composite_key r d) ≡ false
        → (find_by_composite_key 2000 r d s).1 ≡ (find_by_composite_key 2000 r d []).1)
find-set_example = find-set 1000 60 2000 (codes "r") (codes "d") (codes "x1") []

abbrev dead : Dead
dead = record {
  failure_reason = some (codes "TIMEOUT");
  last_error = none;
  destination_id = some (codes "x1");
  agent_id = none;
  updated_at = 5;
  created_at = 4;
}

sort_top_counts_example :
    (others : List (Text × ℕ)) × IsRanked (sort_top error_of (dead ∷ dead ∷ []) ++ others)
    × ((k : Text)
        → Says
            (occurrences error_of k (dead ∷ dead ∷ []))
            (find k (sort_top error_of (dead ∷ dead ∷ []) ++ others)))
    × (length (sort_top error_of (dead ∷ dead ∷ []))
        ≡ min 5 (length (sort_top error_of (dead ∷ dead ∷ []) ++ others)))
sort_top_counts_example = sort_top_counts error_of (dead ∷ dead ∷ [])
