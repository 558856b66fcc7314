-- ===== src/ThreadPool/Invariant.antt =====
-- What the counters, the semaphore and the queue of the pool have to do with its threads.
use school_system.Base.{
  ℕ, ◌+◌, ◌-◌, ◌≤◌, ◌<◌, ◌≡◌, refl, sym, ap, subst, ◌∙◌, false, List, [], ◌∷◌, ◌++◌, append_assoc,
  arith, ◌==◌, if◌then◌else◌, length, length-append, int_mod, inl, inr, Bool-cases,
}
use school_system.ThreadPool.{
  Pool, Phase, starting, waiting, woken, fetching, running, stopped, Turn, moves, blocked,
  undefined, turn, fetch,
}
use school_system.ThreadPool.Threads.{
  System, takes, Step, submits, checks, works, stops, Reach, start, next,
}
use school_system.ThreadPool.Counters.{
  count, count-append, idles, owes, is_stopped, one, idle-le, Inv, init-Inv, submit-Inv, check-Inv,
  stop-Inv,
}

-- What holds of the outcome of a turn that moves.
abbrev Moves : (Pool → Phase → Type 0) → Turn → Type 0
Moves P (moves p b) = P p b
Moves P blocked = Unit
Moves P undefined = Unit

module _ {k : ℕ} {s : System} (v : Inv k s) (before after : List Phase) where
  abbrev moved : Phase → Pool → Phase → System
  moved a p b = record s { pool = p; threads = before ++ b ∷ after; taken = s.taken ++ takes a b }

  counted :
      (a : Phase)
      → s.threads ≡ before ++ a ∷ after
      → (w : Phase → ℕ) → count w s.threads ≡ count w before + (w a + count w after)
  counted a e w = ap (count w) e ∙ count-append w before (a ∷ after)

  -- The fields that a move between two phases keeps, from what it does to the counters.
  moved-Inv :
      (a b : Phase) (p : Pool)
      → s.threads ≡ before ++ a ∷ after
      → p.max_threads ≡ s.pool.max_threads
      → p.cur_threads ≡ s.pool.cur_threads
      → p.sem_limit ≡ s.pool.sem_limit
      → p.sem_count ≤ s.pool.sem_count
      → p.idle_threads + idles a ≡ s.pool.idle_threads + idles b
      → length p.task_queue + s.pool.sem_count + owes a
        ≡ length s.pool.task_queue + p.sem_count + owes b
      → s.pool.task_queue ≡ takes a b ++ p.task_queue
      → (p.stop_event ≡ false → (s.pool.stop_event ≡ false) × (is_stopped b ≡ 0))
      → Inv k (moved a p b)
  moved-Inv a b p e m c l n i t o g = record {
    fits = v.fits;
    limit = omega (arith, v.limit);
    some_thread = omega (arith, v.some_thread);
    handles = omega (arith, v.handles);
    threads = omega (arith, v.threads, counted a e one, count-append one before (b ∷ after));
    idle = omega (arith, v.idle, counted a e idles, count-append idles before (b ∷ after));
    tasks = omega (arith, v.tasks, counted a e owes, count-append owes before (b ∷ after));
    room = omega (arith, v.room);
    order =
        v.order ∙ ap (λ q. s.taken ++ q) o ∙ sym (append_assoc s.taken (takes a b) p.task_queue);
    served = λ f h.
        omega (
          arith,
          v.served f (omega (arith, ap length o, length-append (takes a b) p.task_queue)),
          c,
        );
    alive = λ h. omega (
      arith,
      v.alive (g h).0,
      (g h).1,
      counted a e is_stopped,
      count-append is_stopped before (b ∷ after),
    );
  }

  fetch-Inv :
      (q : List ℕ)
      → s.pool.task_queue ≡ q
      → s.threads ≡ before ++ fetching ∷ after
      → Moves (λ p b. Inv k (moved fetching p b)) (fetch s.pool q)
  fetch-Inv [] f e = tt
  fetch-Inv (task ∷ rest) f e =
      moved-Inv fetching (running task) (record s.pool { task_queue = rest }) e refl refl refl
        (omega arith) refl (omega (arith, ap length f)) f (λ h. (h, refl))

  turn-Inv :
      (a : Phase)
      → s.threads ≡ before ++ a ∷ after
      → Moves (λ p b. Inv k (moved a p b)) (turn s.pool a)
  unfolding turn
  turn-Inv starting e =
      moved-Inv starting waiting _ e refl refl refl (omega arith)
        (omega (
          arith,
          v.fits,
          v.limit,
          v.handles,
          v.idle,
          v.threads,
          counted starting e idles,
          counted starting e one,
          idle-le before,
          idle-le after,
        ))
        refl refl (λ h. (h, refl))
  turn-Inv waiting e = elim (Bool-cases s.pool.stop_event) [
    | inl on ↦
        subst
          (λ t.
            Moves (λ p b. Inv k (moved waiting p b))
              (if t
                then moves s.pool stopped
                else if s.pool.sem_count == 0
                then blocked
                else moves (record s.pool { sem_count = s.pool.sem_count - 1 }) woken))
          (sym on)
          (moved-Inv waiting stopped s.pool e refl refl refl (omega arith) refl refl refl (λ h. cc))
    | inr off ↦ elim (Bool-cases (s.pool.sem_count == 0)) [
      | inl none ↦ rw (off, none) tt
      | inr free ↦
          rw (off, free)
            (moved-Inv waiting woken _ e refl refl refl (omega arith) refl (ground arith) refl
              (λ h. (off, refl)))
    ]
  ]
  turn-Inv woken e =
      moved-Inv woken fetching _ e refl refl refl (omega arith)
        (omega (
          arith,
          v.fits,
          v.limit,
          v.handles,
          v.idle,
          v.threads,
          counted woken e idles,
          counted woken e one,
          idle-le before,
          idle-le after,
        ))
        refl refl (λ h. (h, refl))
  turn-Inv fetching e = fetch-Inv s.pool.task_queue refl e
  turn-Inv (running task) e =
      moved-Inv (running task) starting s.pool e refl refl refl (omega arith) refl refl refl
        (λ h. (h, refl))
  turn-Inv stopped e = tt

pub Step-Inv : {k : ℕ} {s t : System} → Step s t → Inv k s → Inv k t
Step-Inv {k} (submits task free e) v = subst (Inv k) (sym e) (submit-Inv v task)
Step-Inv {k} (checks busy e) v = subst (Inv k) (sym e) (check-Inv v)
Step-Inv {k} (stops free e) v = subst (Inv k) (sym e) (stop-Inv v)
Step-Inv {k} {s} (works before a b after p e m f) v = subst (Inv k) (sym f) (
    subst
      (Moves (λ q c.
        Inv k (record s { pool = q; threads = before ++ c ∷ after; taken = s.taken ++ takes a c })))
      m (turn-Inv v before after a e))

pub Reach-Inv :
    {processors n : ℕ} {s : System}
    → 0 < processors
    → processors < int_mod
    → Reach processors n s
    → Inv processors s
Reach-Inv {processors} {n} pos fits start = init-Inv processors n pos fits
Reach-Inv pos fits (next r st) = Step-Inv st (Reach-Inv pos fits r)
