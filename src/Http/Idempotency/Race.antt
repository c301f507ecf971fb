-- ===== src/Http/Idempotency/Race.antt =====
-- Requests with one key that are in flight together: each looks the key up before any has finished.
use eval_ledger.Base.{
  ℕ, zero, suc, ◌+◌, ◌≡◌, refl, ap, ◌∙◌, Option, none, some, List, [], ◌∷◌, ◌++◌, Text, arith,
}
use eval_ledger.Http.Message.{Response}
use eval_ledger.Http.Idempotency.{Codec, Cache, lookup, finish}
use eval_ledger.Http.Idempotency.Replay.{RoundTrips, Stores, lookup_miss}

-- A request arrives and looks the key up, or one that missed has its handler run and finishes.
pub data Event : Type 0 where
  arrives completes : Event

-- `waiting` requests missed and have not finished; the handler has run `runs` times.
pub record Flight (S W : Type 0) : Type 0 where
  pub world : W
  pub server : S
  pub waiting : ℕ
  pub runs : ℕ

abbrev pub repeat : ℕ → Event → List Event
repeat zero e = []
repeat (suc n) e = e ∷ repeat n e

module _ {S W : Type 0} (codec : Codec) (trips : RoundTrips codec) (cache : Cache S)
    (up : Stores cache) (ttl now : ℕ) (key : Text) (call_next : W → Response × W) where
  arrive : Option Response → Flight S W → Flight S W
  arrive (some answer) f = f
  arrive none f = record f { waiting = f.waiting + 1 }

  complete : ℕ → Flight S W → Flight S W
  complete zero f = f
  complete (suc n) f =
      let (response, world') = call_next f.world in
      record {
        world = world';
        server = (finish codec cache ttl key response now f.server).1;
        waiting = n;
        runs = f.runs + 1;
      }

  unfoldable pub step : Event → Flight S W → Flight S W
  unfolding arrive complete
  step arrives f = arrive (lookup codec cache ttl key now f.server) f
  step completes f = complete f.waiting f

  unfoldable pub run : List Event → Flight S W → Flight S W
  unfolding step
  run [] f = f
  run (e ∷ events) f = run events (step e f)

  run-append : (xs ys : List Event) (f : Flight S W) → run (xs ++ ys) f ≡ run ys (run xs f)
  unfolding run
  run-append [] ys f = refl
  run-append (e ∷ xs) ys f = run-append xs ys (step e f)

  arrive_miss :
      (f : Flight S W)
      → up.value f.server key now ≡ none
      → step arrives f ≡ record f { waiting = f.waiting + 1 }
  unfolding step
  arrive_miss f absent = rw (lookup_miss codec trips cache up ttl key now f.server absent)

  with_waiting :
      (f : Flight S W) (m n : ℕ) → m ≡ n → record f { waiting = m } ≡ record f { waiting = n }
  with_waiting f m n e = ap (λ (k : ℕ). record f { waiting = k }) e

  arrivals :
      (n : ℕ) (f : Flight S W)
      → up.value f.server key now ≡ none
      → run (repeat n arrives) f ≡ record f { waiting = f.waiting + n }
  unfolding run
  arrivals zero f absent = with_waiting f f.waiting (f.waiting + 0) (omega arith)
  arrivals (suc n) f absent =
      ap (run (repeat n arrives)) (arrive_miss f absent)
      ∙ arrivals n (record f { waiting = f.waiting + 1 }) absent
      ∙ with_waiting f (f.waiting + 1 + n) (f.waiting + suc n) (omega arith)

  completions :
      (n : ℕ) (f : Flight S W) → f.waiting ≡ n → (run (repeat n completes) f).runs ≡ f.runs + n
  unfolding run
  completions zero f e = omega arith
  completions (suc n) f e = rw e (
      omega (
        arith,
        completions n
            (record {
              world = (call_next f.world).1;
              server = (finish codec cache ttl key (call_next f.world).0 now f.server).1;
              waiting = n;
              runs = f.runs + 1;
            })
            refl,
      ))

  -- The handler runs once for every request that arrives before the first one has finished: n of them
  -- write n times, though they carry one key.
  pub concurrent_retries_all_run :
      (n : ℕ) (f : Flight S W)
      → up.value f.server key now ≡ none
      → f.waiting ≡ 0
      → (run (repeat n arrives ++ repeat n completes) f).runs ≡ f.runs + n
  concurrent_retries_all_run n f absent idle =
      rw (run-append (repeat n arrives) (repeat n completes) f, arrivals n f absent)
        (completions n (record f { waiting = f.waiting + n }) (omega arith))
