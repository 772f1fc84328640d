-- ===== src/Async/Due.antt =====
-- The batch of `PollOnce` in internal/service/async_runner.go: who is in it, and the time of the next
-- poll.
use mathlib.Core.Path.{subst}
use license_server_ai.Base.{
  ℕ, zero, suc, ◌≤◌, ◌<◌, ◌≡◌, sym, Bool, true, false, Option, List, [], ◌∷◌, ◌⊎◌, inl, inr, length,
  take, arith, Mem, here, there, Mem-filter_if, filter_if-Mem, Bool-cases, if◌then◌else◌, filter_if,
}
use license_server_ai.Base.Slices.{length-take_le}
use license_server_ai.Model.Generation.{GenerationTask}
use license_server_ai.Credential.Selection.{earlier}
use license_server_ai.Async.Poll.{insert_by, sort_by, is_due, due_tasks, polled_before}

module _ (lt : GenerationTask → GenerationTask → Bool)
    (asym : (t u : GenerationTask) → lt t u ≡ true → lt u t ≡ false)
    (behind : (t u v : GenerationTask) → lt u t ≡ false → lt v u ≡ false → lt v t ≡ false) where
  -- A later task may not come before the task.
  abbrev Sorted : List GenerationTask → Type 0
  Sorted [] = Unit
  Sorted (t ∷ ts) = ((u : GenerationTask) → Mem u ts → lt u t ≡ false) × Sorted ts

  Mem-insert_by :
      (t u : GenerationTask) (ts : List GenerationTask)
      → Mem u (insert_by lt t ts)
      → (u ≡ t) ⊎ Mem u ts
  unfolding insert_by
  Mem-insert_by t u [] (here e) = inl e
  Mem-insert_by t u [] (there m) = elim m [ ]
  Mem-insert_by t u (v ∷ ts) h = elim (Bool-cases (lt v t)) [
    | inl b ↦
        later (Mem-insert_by t u ts)
          (subst (λ b'. Mem u (if b' then v ∷ insert_by lt t ts else t ∷ v ∷ ts)) b h)
    | inr b ↦ first (subst (λ b'. Mem u (if b' then v ∷ insert_by lt t ts else t ∷ v ∷ ts)) b h)
  ]
    where
      later :
          (Mem u (insert_by lt t ts) → (u ≡ t) ⊎ Mem u ts)
          → Mem u (v ∷ insert_by lt t ts)
          → (u ≡ t) ⊎ Mem u (v ∷ ts)
      later rest (here e) = inr (here e)
      later rest (there m) = elim (rest m) [ inl e ↦ inl e | inr n ↦ inr (there n) ]

      first : Mem u (t ∷ v ∷ ts) → (u ≡ t) ⊎ Mem u (v ∷ ts)
      first (here e) = inl e
      first (there m) = inr m

  insert_by-Mem :
      (t u : GenerationTask) (ts : List GenerationTask)
      → (u ≡ t) ⊎ Mem u ts
      → Mem u (insert_by lt t ts)
  unfolding insert_by
  insert_by-Mem t u [] (inl e) = here e
  insert_by-Mem t u [] (inr m) = elim m [ ]
  insert_by-Mem t u (v ∷ ts) h = elim (Bool-cases (lt v t)) [
    | inl b ↦ rw b (later (λ k. insert_by-Mem t u ts k) h)
    | inr b ↦ rw b (first h)
  ]
    where
      later :
          ((u ≡ t) ⊎ Mem u ts → Mem u (insert_by lt t ts))
          → (u ≡ t) ⊎ Mem u (v ∷ ts)
          → Mem u (v ∷ insert_by lt t ts)
      later rest (inl e) = there (rest (inl e))
      later rest (inr (here e)) = here e
      later rest (inr (there m)) = there (rest (inr m))

      first : (u ≡ t) ⊎ Mem u (v ∷ ts) → Mem u (t ∷ v ∷ ts)
      first (inl e) = here e
      first (inr m) = there m

  insert_by-Sorted :
      (t : GenerationTask) (ts : List GenerationTask) → Sorted ts → Sorted (insert_by lt t ts)
  unfolding insert_by
  insert_by-Sorted t [] h = ((λ u m. elim m [ ]), tt)
  insert_by-Sorted t (v ∷ ts) h = elim (Bool-cases (lt v t)) [
    | inl b ↦ rw b ((λ u m. after b u (Mem-insert_by t u ts m)), insert_by-Sorted t ts h.1)
    | inr b ↦ rw b ((λ u m. front b u m), h)
  ]
    where
      after : lt v t ≡ true → (u : GenerationTask) → (u ≡ t) ⊎ Mem u ts → lt u v ≡ false
      after b u (inl e) = subst (λ x. lt x v ≡ false) (sym e) (asym v t b)
      after b u (inr m) = h.0 u m

      front : lt v t ≡ false → (u : GenerationTask) → Mem u (v ∷ ts) → lt u t ≡ false
      front b u (here e) = subst (λ x. lt x t ≡ false) (sym e) b
      front b u (there m) = behind t v u b (h.0 u m)

  sort_by-Sorted : (ts : List GenerationTask) → Sorted (sort_by lt ts)
  unfolding sort_by
  sort_by-Sorted [] = tt
  sort_by-Sorted (t ∷ ts) = insert_by-Sorted t (sort_by lt ts) (sort_by-Sorted ts)

  Mem-sort_by : (u : GenerationTask) (ts : List GenerationTask) → Mem u (sort_by lt ts) → Mem u ts
  unfolding sort_by
  Mem-sort_by u [] m = m
  Mem-sort_by u (t ∷ ts) m = elim (Mem-insert_by t u (sort_by lt ts) m) [
    | inl e ↦ here e
    | inr n ↦ there (Mem-sort_by u ts n)
  ]

  sort_by-Mem : (u : GenerationTask) (ts : List GenerationTask) → Mem u ts → Mem u (sort_by lt ts)
  unfolding sort_by
  sort_by-Mem u [] m = m
  sort_by-Mem u (t ∷ ts) (here e) = insert_by-Mem t u (sort_by lt ts) (inl e)
  sort_by-Mem u (t ∷ ts) (there m) = insert_by-Mem t u (sort_by lt ts) (inr (sort_by-Mem u ts m))

  -- Whatever comes before a task at the front of a sorted list is at its front.
  take-Sorted :
      (n : ℕ) (ts : List GenerationTask) (t u : GenerationTask)
      → Sorted ts
      → Mem t (take n ts)
      → Mem u ts
      → lt u t ≡ true
      → Mem u (take n ts)
  take-Sorted zero ts t u h m k b = elim m [ ]
  take-Sorted (suc n) [] t u h m k b = elim k [ ]
  take-Sorted (suc n) (v ∷ ts) t u h m (here e) b = here e
  take-Sorted (suc n) (v ∷ ts) t u h (here e) (there k) b =
      let wrong : lt u t ≡ false = subst (λ x. lt u x ≡ false) (sym e) (h.0 u k) in cc
  take-Sorted (suc n) (v ∷ ts) t u h (there m) (there k) b = there (take-Sorted n ts t u h.1 m k b)

Mem-take : (n : ℕ) (ts : List GenerationTask) (t : GenerationTask) → Mem t (take n ts) → Mem t ts
Mem-take zero ts t m = elim m [ ]
Mem-take (suc n) [] t m = elim m [ ]
Mem-take (suc n) (u ∷ ts) t (here e) = here e
Mem-take (suc n) (u ∷ ts) t (there m) = there (Mem-take n ts t m)

polled_before-asym :
    (a b : Option ℕ) (m n : ℕ) → polled_before a m b n ≡ true → polled_before b n a m ≡ false
polled_before-asym a b m n h = ground arith

polled_before-behind :
    (a b c : Option ℕ) (m n k : ℕ)
    → polled_before b n a m ≡ false
    → polled_before c k b n ≡ false
    → polled_before c k a m ≡ false
polled_before-behind a b c m n k h g = ground arith

polled_before_of :
    (a b : Option ℕ) (m n : ℕ)
    → (earlier a b ≡ true) ⊎ ((a ≡ b) × (m < n))
    → polled_before a m b n ≡ true
polled_before_of a b m n (inl e) = ground arith
polled_before_of a b m n (inr (same, less)) =
    subst (λ x. polled_before a m x n ≡ true) same (polled_before_self a m n less)
  where
    polled_before_self : (o : Option ℕ) (m n : ℕ) → m < n → polled_before o m o n ≡ true
    polled_before_self o m n h = ground arith

module _ (updated : GenerationTask → ℕ) (now : ℕ) (ts : List GenerationTask) where
  -- Who is in a batch, and who may not be left out.
  pub record IsBatch (batch : List GenerationTask) : Type 0 where
    pub short : length batch ≤ 50
    pub due : (t : GenerationTask) → Mem t batch → Mem t ts × (is_due now t ≡ true)
    pub fair :
        (t u : GenerationTask)
        → Mem t batch
        → Mem u ts
        → is_due now u ≡ true
        → (earlier u.next_poll_at t.next_poll_at ≡ true)
          ⊎ ((u.next_poll_at ≡ t.next_poll_at) × (updated u < updated t))
        → Mem u batch

  abbrev sooner : GenerationTask → GenerationTask → Bool
  sooner t u = polled_before t.next_poll_at (updated t) u.next_poll_at (updated u)

  -- A batch of PollOnce has at most 50 tasks, all of them stored, running, known upstream and due;
  -- and a task like that which has been due for longer than one of the batch, or for as long and was
  -- written earlier, is in the batch too.
  pub due_tasks-IsBatch : IsBatch (due_tasks updated now ts)
  unfolding due_tasks
  due_tasks-IsBatch = record {
    short = length-take_le 50 _;
    due = λ t m. Mem-filter_if _ t ts (Mem-sort_by sooner asym behind t _ (Mem-take 50 _ t m));
    fair = λ t u m k d b.
        take-Sorted sooner asym behind 50 _ t u
          (sort_by-Sorted sooner asym behind (filter_if (is_due now) ts)) m
          (sort_by-Mem sooner asym behind u _ (filter_if-Mem _ u ts k d))
          (polled_before_of u.next_poll_at t.next_poll_at (updated u) (updated t) b);
  }
    where
      asym : (t u : GenerationTask) → sooner t u ≡ true → sooner u t ≡ false
      asym t u h = polled_before-asym t.next_poll_at u.next_poll_at (updated t) (updated u) h

      behind :
          (t u v : GenerationTask) → sooner u t ≡ false → sooner v u ≡ false → sooner v t ≡ false
      behind t u v h k =
          polled_before-behind t.next_poll_at u.next_poll_at v.next_poll_at (updated t) (updated u)
            (updated v) h k
