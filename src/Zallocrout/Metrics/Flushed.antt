-- ===== src/Zallocrout/Metrics/Flushed.antt =====
-- No count of a Match is lost between a local counter and the global ones.
use go_kitbox.Prelude.{
  ℕ, zero, suc, ◌+◌, ◌%◌, ◌^◌, ◌<◌, ◌≡◌, refl, ◌∙◌, List, [], ◌∷◌, length, get_or, set, arith,
}
use go_kitbox.Zallocrout.Metrics.{
  RouterMetrics, LocalCounter, Collector, zero_counter, add64, add_some, flush_local, flush_loop,
  flush, increment_cache_hits, increment_cache_misses, increment_total_matches, on_local,
}

abbrev pub sum_by : (LocalCounter → ℕ) → List LocalCounter → ℕ
sum_by f [] = 0
sum_by f (l ∷ ls) = f l + sum_by f ls

-- All that was counted of one kind, with the 64 bits of the counters.
abbrev pub counted : (RouterMetrics → ℕ) → (LocalCounter → ℕ) → Collector → ℕ
counted g f c = (g c.global + sum_by f c.locals) % 2 ^ 64

sum_by-set :
    (f : LocalCounter → ℕ) (n : ℕ) (ls : List LocalCounter) (i : ℕ) (l : LocalCounter)
    → i < length ls
    → f l ≡ (f (get_or ls i zero_counter) + 1) % 2 ^ 64
    → (n + sum_by f (set ls i l)) % 2 ^ 64 ≡ (n + sum_by f ls + 1) % 2 ^ 64
sum_by-set f n [] i l h e = absurd (omega arith)
sum_by-set f n (x ∷ ls) zero l h e = omega (arith, e)
sum_by-set f n (x ∷ ls) (suc i) l h e = omega (arith, sum_by-set f (n + f x) ls i l (omega arith) e)

add_some_lem : (total n : ℕ) → total < 2 ^ 64 → add_some total n ≡ (total + n) % 2 ^ 64
add_some_lem total n h = ground arith

module _ (g : RouterMetrics → ℕ) (f : LocalCounter → ℕ)
    (adds : (l : LocalCounter) (m : RouterMetrics)
      → g (flush_local l m) ≡ add_some (g m) (f l)) where
  flush_loop-sum :
      (ls : List LocalCounter) (m : RouterMetrics)
      → g m < 2 ^ 64
      → g (flush_loop ls m).1 ≡ (g m + sum_by f ls) % 2 ^ 64
  unfolding flush_loop
  flush_loop-sum [] m h = omega arith
  flush_loop-sum (l ∷ ls) m h =
      let one = adds l m ∙ add_some_lem (g m) (f l) h in
      omega (arith, one, flush_loop-sum ls (flush_local l m) (omega (arith, one)))

  flush_loop-zeros :
      f zero_counter ≡ 0
      → (ls : List LocalCounter) (m : RouterMetrics) → sum_by f (flush_loop ls m).0 ≡ 0
  unfolding flush_loop
  flush_loop-zeros z [] m = refl
  flush_loop-zeros z (l ∷ ls) m = omega (arith, z, flush_loop-zeros z ls (flush_local l m))

pub record IsCollector (c : Collector) : Type 0 where
  pub sixteen : length c.locals ≡ 16
  pub hits_fit : c.global.cache_hits < 2 ^ 64
  pub misses_fit : c.global.cache_misses < 2 ^ 64
  pub matches_fit : c.global.total_matches < 2 ^ 64

-- A kind of count: what a flush adds for it.
module _ (g : RouterMetrics → ℕ) (f : LocalCounter → ℕ)
    (adds : (l : LocalCounter) (m : RouterMetrics)
      → g (flush_local l m) ≡ add_some (g m) (f l)) where
  shown : (c : Collector) → g c.global < 2 ^ 64 → g (flush c).global ≡ counted g f c
  unfolding flush
  shown c h = flush_loop-sum g f adds c.locals c.global h

  shown_next :
      (step : LocalCounter → LocalCounter) (address : ℕ) (c : Collector)
      → ((l : LocalCounter) → f (step l) ≡ (f l + 1) % 2 ^ 64)
      → length c.locals ≡ 16
      → g c.global < 2 ^ 64
      → g (flush (on_local address step c)).global ≡ (counted g f c + 1) % 2 ^ 64
  shown_next step address c steps size h =
      let idx : ℕ = address % 16 in
      shown (on_local address step c) h
      ∙ sum_by-set f (g c.global) c.locals idx (step (get_or c.locals idx zero_counter))
          (omega (arith, size)) (steps (get_or c.locals idx zero_counter))
      ∙ omega arith

  shown_again :
      (c : Collector)
      → f zero_counter ≡ 0
      → g c.global < 2 ^ 64
      → g (flush (flush c)).global ≡ g (flush c).global
  unfolding flush
  shown_again c zeroed h =
      let once = shown c h in
      let empty : sum_by f (flush c).locals ≡ 0 =
        flush_loop-zeros g f adds zeroed c.locals c.global in
      let fits : g (flush c).global < 2 ^ 64 = omega (arith, once) in
      shown (flush c) fits ∙ omega (arith, empty, fits)

abbrev pub hits : LocalCounter → ℕ
hits l = l.cache_hits

abbrev pub misses : LocalCounter → ℕ
misses l = l.cache_misses

abbrev pub matches : LocalCounter → ℕ
matches l = l.total_matches

-- After a flush each global counter shows all that was counted so far, one more after one more
-- increment, whatever the address that chose its local counter; and a second flush changes nothing: no
-- count is lost or added twice. The counters have 64 bits.
pub flush_counts :
    (address : ℕ) (c : Collector)
    → IsCollector c
    → ((flush (increment_cache_hits address c)).global.cache_hits
        ≡ (counted (λ m. m.cache_hits) hits c + 1) % 2 ^ 64)
      × ((flush (increment_cache_misses address c)).global.cache_misses
          ≡ (counted (λ m. m.cache_misses) misses c + 1) % 2 ^ 64)
      × ((flush (increment_total_matches address c)).global.total_matches
          ≡ (counted (λ m. m.total_matches) matches c + 1) % 2 ^ 64)
      × ((flush (flush c)).global.cache_hits ≡ (flush c).global.cache_hits)
      × ((flush (flush c)).global.cache_misses ≡ (flush c).global.cache_misses)
      × ((flush (flush c)).global.total_matches ≡ (flush c).global.total_matches)
unfolding increment_cache_hits increment_cache_misses increment_total_matches flush_local
flush_counts address c v = (
  shown_next (λ m. m.cache_hits) hits (λ l m. refl)
      (λ l. record l { cache_hits = add64 l.cache_hits 1 }) address c (λ l. refl) v.sixteen
      v.hits_fit,
  shown_next (λ m. m.cache_misses) misses (λ l m. refl)
      (λ l. record l { cache_misses = add64 l.cache_misses 1 }) address c (λ l. refl) v.sixteen
      v.misses_fit,
  shown_next (λ m. m.total_matches) matches (λ l m. refl)
      (λ l. record l { total_matches = add64 l.total_matches 1 }) address c (λ l. refl) v.sixteen
      v.matches_fit,
  shown_again (λ m. m.cache_hits) hits (λ l m. refl) c refl v.hits_fit,
  shown_again (λ m. m.cache_misses) misses (λ l m. refl) c refl v.misses_fit,
  shown_again (λ m. m.total_matches) matches (λ l m. refl) c refl v.matches_fit,
)
