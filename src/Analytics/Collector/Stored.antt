-- ===== src/Analytics/Collector/Stored.antt =====
-- What the table holds after any interleaving of the callers, the clock and the goroutine.
use vedox.Base.{
  suc, if◌then◌else◌, ℕ, ◌+◌, ◌<◌, ◌≤◌, ◌≡◌, ◌⊎◌, refl, ap, Bool, Bool-cases, true, false, Option,
  Option-cases, none, some, inl, inr, List, [], ◌∷◌, ◌++◌, length, length-append, map, ltb, arith,
}
use vedox.Base.Dict.{Dict}
use vedox.Base.Text.{Text}
use vedox.Analytics.Events.{Event, validate}
use vedox.Analytics.Collector.{
  Row, Collector, Worker, waiting, draining, writing, stopped, buffer_size, with_session, enqueue,
  emit, stop, return_from_flush, receive, row_of, submit_write,
}

pub append_assoc : {A : Type 0} (xs ys zs : List A) → (xs ++ ys) ++ zs ≡ xs ++ (ys ++ zs)
append_assoc [] ys zs = refl
append_assoc (x ∷ xs) ys zs = ap (◌∷◌ x) (append_assoc xs ys zs)

pub append-nil : {A : Type 0} (xs : List A) → xs ++ [] ≡ xs
append-nil [] = refl
append-nil (x ∷ xs) = ap (◌∷◌ x) (append-nil xs)

pub map-append :
    {A B : Type 0} (f : A → B) (xs ys : List A) → map f (xs ++ ys) ≡ map f xs ++ map f ys
map-append f [] ys = refl
map-append f (x ∷ xs) ys = ap (◌∷◌ (f x)) (map-append f xs ys)

length-map : {A B : Type 0} (f : A → B) (xs : List A) → length (map f xs) ≡ length xs
length-map f [] = refl
length-map f (x ∷ xs) = ap suc (length-map f xs)

module _ {Any : Type 0} (format : ℕ → Text) (marshal : Dict Text Any → Option Text) where
  -- The events that the goroutine has received and not yet written.
  abbrev pub in_hand : Worker Any → List (Event Any)
  in_hand waiting = []
  in_hand (draining batch last) = batch
  in_hand (writing batch last) = batch
  in_hand stopped = []

  -- The events that an `Emit` puts in the channel.
  abbrev pub enqueued : Event Any → Collector Any → List (Event Any)
  enqueued e c =
      let e' = with_session c.session_id e in
      elim (validate e') [
        | some error ↦ []
        | none ↦ if ltb (length c.ch) buffer_size then e' ∷ [] else []
      ]

  -- The collector after an interleaving, with the events that the channel took, in their order,
  -- and the number of those whose batch was rolled back. The goroutine wakes at a tick, or for its
  -- `last` flush after Stop or when its context is cancelled.
  pub data Run (c : Collector Any) : List (Event Any) → ℕ → Collector Any → Type 0 where
    here : Run c [] 0 c
    emits :
        {es : List (Event Any)} {n : ℕ} {d : Collector Any} (e : Event Any)
        → Run c es n d
        → Run c (es ++ enqueued e d) n (emit e d).0
    stops : {es : List (Event Any)} {n : ℕ} {d : Collector Any} → Run c es n d → Run c es n (stop d)
    wakes :
        {es : List (Event Any)} {n : ℕ} {d : Collector Any} (last : Bool)
        → Run c es n d
        → d.worker ≡ waiting
        → Run c es n (record d { worker = draining [] last })
    receives :
        {es : List (Event Any)} {n : ℕ} {d : Collector Any} (batch : List (Event Any)) (last : Bool)
        → Run c es n d
        → d.worker ≡ draining batch last
        → Run c es n (receive batch last d.ch d)
    writes :
        {es : List (Event Any)} {n : ℕ} {d : Collector Any} (batch : List (Event Any))
        (last ok : Bool)
        → Run c es n d
        → d.worker ≡ writing batch last
        → Run c es
            (if ok then n else n + length batch)
            (submit_write format marshal ok batch last d)

  -- What is true of the table, the events in hand and the channel behind such a run.
  pub record IsAccounted (es : List (Event Any)) (n : ℕ) (table : List Row)
      (hand ch : List (Event Any)) : Type 0 where
    pub bounded : length ch ≤ buffer_size
    pub counted : length table + n + length (hand ++ ch) ≡ length es
    pub in_order :
        n ≡ 0 → table ++ map (row_of format marshal) (hand ++ ch) ≡ map (row_of format marshal) es

  took :
      (es : List (Event Any)) (n : ℕ) (table : List Row) (hand ch : List (Event Any))
      (e : Event Any)
      → length ch < buffer_size
      → IsAccounted es n table hand ch
      → IsAccounted (es ++ e ∷ []) n table hand (ch ++ e ∷ [])
  took es n table hand ch e h a = record {
    bounded = omega (arith, length-append ch (e ∷ []));
    counted =
        rw (← append_assoc hand ch (e ∷ [])) (
          omega (arith, a.counted, length-append (hand ++ ch) (e ∷ []), length-append es (e ∷ [])));
    in_order = λ z.
        let row = row_of format marshal in
        rw
          (
            ← append_assoc hand ch (e ∷ []),
            map-append row (hand ++ ch) (e ∷ []),
            map-append row es (e ∷ []),
            ← a.in_order z,
            append_assoc table (map row (hand ++ ch)) (row e ∷ []),
          )
          refl;
  }

  received :
      (es : List (Event Any)) (n : ℕ) (table : List Row) (hand ch : List (Event Any))
      (e : Event Any)
      → IsAccounted es n table hand (e ∷ ch)
      → IsAccounted es n table (hand ++ e ∷ []) ch
  received es n table hand ch e a = record {
    bounded = omega (arith, a.bounded);
    counted = rw (append_assoc hand (e ∷ []) ch) a.counted;
    in_order = λ z. rw (append_assoc hand (e ∷ []) ch) (a.in_order z);
  }

  wrote :
      (es : List (Event Any)) (n : ℕ) (table : List Row) (hand ch : List (Event Any))
      → IsAccounted es n table hand ch
      → IsAccounted es n (table ++ map (row_of format marshal) hand) [] ch
  wrote es n table hand ch a =
      let row = row_of format marshal in
      record {
        bounded = a.bounded;
        counted = omega (
          arith,
          a.counted,
          length-append hand ch,
          length-append table (map row hand),
          length-map row hand,
        );
        in_order = λ z.
            rw (append_assoc table (map row hand) (map row ch), ← map-append row hand ch)
              (a.in_order z);
      }

  rolled_back :
      (es : List (Event Any)) (n : ℕ) (table : List Row) (hand ch : List (Event Any))
      → IsAccounted es n table hand ch
      → IsAccounted es (n + length hand) table [] ch
  rolled_back es n table [] ch a = record {
    bounded = a.bounded;
    counted = omega (arith, a.counted);
    in_order = λ z. a.in_order (omega arith);
  }
  rolled_back es n table (x ∷ hand) ch a = record {
    bounded = a.bounded;
    counted = omega (arith, a.counted, length-append hand ch);
    in_order = λ z. absurd (omega arith);
  }

  abbrev Accounts : List (Event Any) → ℕ → Collector Any → Type 0
  Accounts es n d = IsAccounted es n d.table (in_hand d.worker) d.ch

  -- An `Emit` leaves the collector alone, or the channel takes one event.
  emit-cases :
      (d : Collector Any) (e : Event Any)
      → let e' = with_session d.session_id e in
        (((emit e d).0 ≡ d) × (enqueued e d ≡ []))
        ⊎ ((length d.ch < buffer_size)
            × ((emit e d).0 ≡ record d { ch = d.ch ++ e' ∷ [] })
            × (enqueued e d ≡ e' ∷ []))
  unfolding emit enqueue
  emit-cases d e = elim (Option-cases (validate (with_session d.session_id e))) [
    | inr (error, f) ↦ inl (ground (arith, f), ground (arith, f))
    | inl f ↦ elim (Bool-cases (ltb (length d.ch) buffer_size)) [
      | inr g ↦ inl (ground (arith, f, g), ground (arith, f, g))
      | inl g ↦ inr (ground (arith, g), ground (arith, f, g), ground (arith, f, g))
    ]
  ]

  emit-Accounts :
      (es : List (Event Any)) (n : ℕ) (d : Collector Any) (e : Event Any)
      → Accounts es n d
      → Accounts (es ++ enqueued e d) n (emit e d).0
  emit-Accounts es n d e a = elim (emit-cases d e) [
    | inl (p, q) ↦ rw (p, q, append-nil es) a
    | inr (h, p, q) ↦
        rw (p, q) (took es n d.table (in_hand d.worker) d.ch (with_session d.session_id e) h a)
  ]

  receive-Accounts :
      (es : List (Event Any)) (n : ℕ) (d : Collector Any) (batch l : List (Event Any)) (last : Bool)
      → d.ch ≡ l
      → IsAccounted es n d.table batch l
      → Accounts es n (receive batch last l d)
  unfolding receive return_from_flush
  receive-Accounts es n d [] [] true e a = rw e a
  receive-Accounts es n d [] [] false e a = rw e a
  receive-Accounts es n d (b ∷ batch) [] last e a = rw e a
  receive-Accounts es n d batch (x ∷ l) last e a = received es n d.table batch l x a

  write-Accounts :
      (es : List (Event Any)) (n : ℕ) (d : Collector Any) (batch : List (Event Any))
      (last ok : Bool)
      → IsAccounted es n d.table batch d.ch
      → Accounts es
          (if ok then n else n + length batch)
          (submit_write format marshal ok batch last d)
  unfolding submit_write return_from_flush
  write-Accounts es n d batch true true a = wrote es n d.table batch d.ch a
  write-Accounts es n d batch false true a = wrote es n d.table batch d.ch a
  write-Accounts es n d batch true false a = rolled_back es n d.table batch d.ch a
  write-Accounts es n d batch false false a = rolled_back es n d.table batch d.ch a

  abbrev pub IsNew : Collector Any → Type 0
  IsNew c = (c.ch ≡ []) × (c.worker ≡ waiting) × (c.table ≡ [])

  new-Accounts : (c : Collector Any) → IsNew c → Accounts [] 0 c
  new-Accounts c (p, q, r) =
      rw (p, q, r) (record { bounded = omega arith; counted = omega arith; in_order = λ z. refl })

  -- However the callers, the clock, Stop and the goroutine interleave, the channel never holds
  -- more than 256 events; every event that it took is in the table, in a batch that was rolled
  -- back, in the goroutine's hands or in the channel; and where no batch was rolled back, the
  -- table with the events in hand and in the channel behind it is what the channel took, in order.
  pub collected-IsAccounted :
      (c : Collector Any) {es : List (Event Any)} {n : ℕ} {d : Collector Any}
      → IsNew c
      → Run c es n d
      → IsAccounted es n d.table (in_hand d.worker) d.ch
  unfolding stop
  collected-IsAccounted c h here = new-Accounts c h
  collected-IsAccounted c h (emits {es} {n} {d} e r) =
      emit-Accounts es n d e (collected-IsAccounted c h r)
  collected-IsAccounted c h (stops r) = collected-IsAccounted c h r
  collected-IsAccounted c h (wakes {es} {n} {d} last r w) =
      let a : IsAccounted es n d.table (in_hand d.worker) d.ch = collected-IsAccounted c h r in
      rw w at a
  collected-IsAccounted c h (receives {es} {n} {d} batch last r w) =
      let a : IsAccounted es n d.table (in_hand d.worker) d.ch = collected-IsAccounted c h r in
      receive-Accounts es n d batch d.ch last refl (rw w at a)
  collected-IsAccounted c h (writes {es} {n} {d} batch last ok r w) =
      let a : IsAccounted es n d.table (in_hand d.worker) d.ch = collected-IsAccounted c h r in
      write-Accounts es n d batch last ok (rw w at a)
