-- ===== src/Timer/Manager/Inv.antt =====
-- The invariant of the Manager: the stop channel of a timer in the map is open, and its own.
use Prim.Native.String.{String}
use go_kitbox.Prelude.{
  not, ◌&&◌, ◌==◌, ℕ, suc, ◌<◌, ◌≡◌, ◌≢◌, refl, sym, ap, ◌∙◌, Bool, true, false, List, [], ◌∷◌,
  some, Option-cases, Bool-cases, inl, inr, arith,
}
use go_kitbox.Prelude.Keys.{string_eq}
use go_kitbox.Prelude.Maps.{lookup, insert, delete, insert_cases, delete_cases}
use go_kitbox.Prelude.Run.{Run, ok, err, Returns, returns}
use go_kitbox.Timer.Manager.{
  Timer, TimerError, Manager, elem, stop, create, remove_timer, reset_timer, stop_loop,
}

pub ticks-false :
    (is_once : Bool) (interval : ℕ) → 0 < interval → (not is_once && interval == 0) ≡ false
ticks-false is_once interval h = ground arith

module _ {Callback : Type 0} where
  pub record IsOpen (m : Manager Callback) (t : Timer Callback) : Type 0 where
    pub not_done : t.once_done ≡ false
    pub not_closed : elem t.stop_chan m.closed ≡ false
    pub made : t.stop_chan < m.next_chan

  pub record IsValid (m : Manager Callback) : Type 0 where
    pub open_chan : (id : String) (t : Timer Callback) → lookup id m.timers ≡ some t → IsOpen m t
    pub own_chan :
        (id id' : String) (t t' : Timer Callback)
        → lookup id m.timers ≡ some t
        → lookup id' m.timers ≡ some t'
        → t.stop_chan ≡ t'.stop_chan
        → id ≡ id'
    pub only_made : (c : ℕ) → elem c m.closed ≡ true → c < m.next_chan

  -- A call ends without a panic: with an error, or with a valid manager.
  pub data Safe : Run TimerError (Manager Callback) → Type 0 where
    fails : {e : TimerError} → Safe (err e)
    works : {m : Manager Callback} → IsValid m → Safe (ok m)

  -- The same of the timers with other names.
  pub record Others (id : String) (m : Manager Callback) : Type 0 where
    pub others_open :
        (j : String) (t : Timer Callback) → id ≢ j → lookup j m.timers ≡ some t → IsOpen m t
    pub others_own :
        (j k : String) (t u : Timer Callback)
        → id ≢ j
        → id ≢ k
        → lookup j m.timers ≡ some t
        → lookup k m.timers ≡ some u
        → t.stop_chan ≡ u.stop_chan
        → j ≡ k
    pub all_made : (c : ℕ) → elem c m.closed ≡ true → c < m.next_chan

  pub IsValid-Others : (id : String) (m : Manager Callback) → IsValid m → Others id m
  IsValid-Others id m v = record {
    others_open = λ j t ne h. v.open_chan j t h;
    others_own = λ j k t u nj nk h h' e. v.own_chan j k t u h h' e;
    all_made = v.only_made;
  }

  not_made-open :
      (m : Manager Callback) {id : String} → Others id m → elem m.next_chan m.closed ≡ false
  not_made-open m o = elim (Bool-cases (elem m.next_chan m.closed)) [
    | inl y ↦ absurd (omega (arith, o.all_made m.next_chan y))
    | inr n ↦ n
  ]

  abbrev pub started : String → Timer Callback → Manager Callback → Manager Callback
  started id t m = record m { timers = insert id t m.timers; next_chan = suc m.next_chan }

  pub started-IsValid :
      (id : String) (t : Timer Callback) (m : Manager Callback)
      → t.stop_chan ≡ m.next_chan
      → t.once_done ≡ false
      → Others id m
      → IsValid (started id t m)
  started-IsValid id t m c d o = record {
    open_chan = λ j u h. elim (insert_cases id j t u m.timers h) [
      | inl (e, same) ↦
          let chan : u.stop_chan ≡ m.next_chan = ap (λ x. x.stop_chan) (sym same) ∙ c in
          record {
            not_done = ap (λ x. x.once_done) (sym same) ∙ d;
            not_closed = ap (λ x. elem x m.closed) chan ∙ not_made-open m o;
            made = omega (arith, chan);
          }
      | inr (ne, there) ↦
          let v = o.others_open j u ne there in
          record { not_done = v.not_done; not_closed = v.not_closed; made = omega (arith, v.made) }
    ];
    own_chan = λ j k u u' h h' e. elim (insert_cases id j t u m.timers h) [
      | inl (ej, same) ↦ elim (insert_cases id k t u' m.timers h') [
        | inl (ek, _) ↦ sym ej ∙ ek
        | inr (nk, there) ↦
            let chan : u.stop_chan ≡ m.next_chan = ap (λ x. x.stop_chan) (sym same) ∙ c in
            absurd (omega (arith, chan, e, (o.others_open k u' nk there).made))
      ]
      | inr (nj, there) ↦ elim (insert_cases id k t u' m.timers h') [
        | inl (ek, same) ↦
            let chan : u'.stop_chan ≡ m.next_chan = ap (λ x. x.stop_chan) (sym same) ∙ c in
            absurd (omega (arith, chan, e, (o.others_open j u nj there).made))
        | inr (nk, there') ↦ o.others_own j k u u' nj nk there there' e
      ]
    ];
    only_made = λ x h. omega (arith, o.all_made x h);
  }

  dropped-IsValid :
      (id : String) (m : Manager Callback)
      → Others id m
      → IsValid (record m { timers = delete id m.timers })
  dropped-IsValid id m o = record {
    open_chan = λ j u h.
        let (ne, there) = delete_cases id j u m.timers h in
        let v = o.others_open j u ne there in
        record { not_done = v.not_done; not_closed = v.not_closed; made = v.made };
    own_chan = λ j k u u' h h' e.
        let (nj, there) = delete_cases id j u m.timers h in
        let (nk, there') = delete_cases id k u' m.timers h' in
        o.others_own j k u u' nj nk there there' e;
    only_made = o.all_made;
  }

  abbrev pub with_closed : Timer Callback → Manager Callback → Manager Callback
  with_closed t m = record m { closed = t.stop_chan ∷ m.closed }

  module _ (id : String) (t : Timer Callback) (m : Manager Callback) (v : IsValid m)
      (h : lookup id m.timers ≡ some t) where
    -- A timer of the map can be stopped: its channel closes, for the first time.
    pub stop_lem : stop t m ≡ ok (with_closed t m)
    stop_lem = let o = v.open_chan id t h in rw (o.not_done, o.not_closed) refl

    stopped-Others : Others id (with_closed t m)
    stopped-Others = record {
      others_open = λ j u ne there.
          let o = v.open_chan j u there in
          let other : t.stop_chan ≢ u.stop_chan = λ e. ne (v.own_chan id j t u h there e) in
          record {
            not_done = o.not_done;
            not_closed = ground (arith, other, o.not_closed);
            made = o.made;
          };
      others_own = λ j k u u' nj nk there there' e. v.own_chan j k u u' there there' e;
      all_made = λ c there. ground (arith, there, (v.open_chan id t h).made, v.only_made c);
    }

  pub create-Safe :
      (id : String) (interval : ℕ) (callback : Callback) (is_once : Bool) (m : Manager Callback)
      → IsValid m
      → (not is_once && interval == 0) ≡ false
      → Safe (create id interval callback is_once m)
  unfolding create
  create-Safe id interval callback is_once m v ticks = elim (Option-cases (lookup id m.timers)) [
    | inl n ↦
        rw (n, ticks, create) (works (started-IsValid id _ m refl refl (IsValid-Others id m v)))
    | inr (t, s) ↦ rw (s, create) fails
  ]

  pub remove_timer-Safe :
      (id : String) (m : Manager Callback) → IsValid m → Safe (remove_timer id m)
  unfolding remove_timer
  remove_timer-Safe id m v = elim (Option-cases (lookup id m.timers)) [
    | inl n ↦ rw (n, remove_timer) fails
    | inr (t, s) ↦
        rw (s, stop_lem id t m v s, remove_timer)
          (works (dropped-IsValid id (with_closed t m) (stopped-Others id t m v s)))
  ]

  pub reset_timer-Safe :
      (id : String) (interval : ℕ) (m : Manager Callback)
      → IsValid m
      → 0 < interval
      → Safe (reset_timer id interval m)
  unfolding reset_timer
  reset_timer-Safe id interval m v positive = elim (Option-cases (lookup id m.timers)) [
    | inl n ↦ rw (n, reset_timer) fails
    | inr (t, s) ↦
        rw (s, stop_lem id t m v s, ticks-false t.is_once interval positive, reset_timer)
          (works (started-IsValid id _ (with_closed t m) refl refl (stopped-Others id t m v s)))
  ]

  pub stop_loop-IsValid :
      (ids : List String) (m : Manager Callback) → IsValid m → Returns IsValid (stop_loop ids m)
  unfolding stop_loop
  stop_loop-IsValid [] m v = returns v
  stop_loop-IsValid (id ∷ ids) m v = elim (Option-cases (lookup id m.timers)) [
    | inl n ↦ rw (n, stop_loop) (stop_loop-IsValid ids m v)
    | inr (t, s) ↦
        rw (s, stop_lem id t m v s, stop_loop)
          (stop_loop-IsValid ids _
            (dropped-IsValid id (with_closed t m) (stopped-Others id t m v s)))
  ]
