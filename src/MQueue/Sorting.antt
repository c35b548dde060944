-- ===== src/MQueue/Sorting.antt =====
-- The order in which a queue of src/mqueue/mqueue.c keeps messages, against one that knows nothing of
-- places: by priority, and those of one priority in the order in which they came.
use backend_in_c.Prelude.{
  ◌≡◌, refl, ap, List, [], ◌∷◌, ◌++◌, Bool, true, false, inl, inr, Bool-cases, arith, if◌then◌else◌,
  sym, ◌∙◌, append-nil, ◌&&◌, subst,
}
use backend_in_c.Common.Words.{ℤ, pos, negsuc, leb_ℤ}
use backend_in_c.MQueue.{Ordering, ordering_none, ordering_fifo, ordering_priority, Message, Ptr}
use backend_in_c.MQueue.Links.{Chain}
use backend_in_c.MQueue.Order.{front, back, inserted}
use backend_in_c.MQueue.Serving.{messages_of}

-- No message is more urgent than the priority.
abbrev pub AtMost : ℤ → List Message → Type 0
AtMost k [] = Unit {0}
AtMost k (m ∷ ms) = (leb_ℤ m.priority k ≡ true) × AtMost k ms

-- No message is more urgent than one before it.
abbrev pub Descends : List Message → Type 0
Descends [] = Unit {0}
Descends (m ∷ ms) = AtMost m.priority ms × Descends ms

-- The messages of one priority.
unfoldable pub of_priority : ℤ → List Message → List Message
of_priority k [] = []
of_priority k (m ∷ ms) =
    let rest = of_priority k ms in
    if leb_ℤ k m.priority && leb_ℤ m.priority k then m ∷ rest else rest

-- The order of a queue to which messages have come: as they came, or by priority and, within a
-- priority, as they came.
abbrev pub InOrder : Ordering → List Message → List Message → Type 0
InOrder ordering_none hs ms = hs ≡ ms
InOrder ordering_fifo hs ms = hs ≡ ms
InOrder ordering_priority hs ms = Descends hs × ((k : ℤ) → of_priority k hs ≡ of_priority k ms)

leb_ℤ_trans : (a b c : ℤ) → leb_ℤ a b ≡ true → leb_ℤ b c ≡ true → leb_ℤ a c ≡ true
leb_ℤ_trans (pos a) (pos b) (pos c) e f = ground (arith, e, f)
leb_ℤ_trans (pos a) (pos b) (negsuc c) e f = f
leb_ℤ_trans (pos a) (negsuc b) (pos c) e f = absurd (cc e)
leb_ℤ_trans (pos a) (negsuc b) (negsuc c) e f = e
leb_ℤ_trans (negsuc a) (pos b) (pos c) e f = refl
leb_ℤ_trans (negsuc a) (pos b) (negsuc c) e f = absurd (cc f)
leb_ℤ_trans (negsuc a) (negsuc b) (pos c) e f = refl
leb_ℤ_trans (negsuc a) (negsuc b) (negsuc c) e f = ground (arith, e, f)

leb_ℤ_total : (a b : ℤ) → leb_ℤ a b ≡ false → leb_ℤ b a ≡ true
leb_ℤ_total (pos a) (pos b) e = ground (arith, e)
leb_ℤ_total (pos a) (negsuc b) e = refl
leb_ℤ_total (negsuc a) (pos b) e = absurd (cc e)
leb_ℤ_total (negsuc a) (negsuc b) e = ground (arith, e)

messages_of-append : (c d : Chain) → messages_of (c ++ d) ≡ messages_of c ++ messages_of d
messages_of-append [] d = refl
messages_of-append ((p, m) ∷ c) d = ap (λ (ms : List Message). m ∷ ms) (messages_of-append c d)

of_priority-append :
    (k : ℤ) (ms ns : List Message) → of_priority k (ms ++ ns) ≡ of_priority k ms ++ of_priority k ns
unfolding of_priority
of_priority-append k [] ns = refl
of_priority-append k (m ∷ ms) ns = elim (Bool-cases (leb_ℤ k m.priority && leb_ℤ m.priority k)) [
  | inl same ↦ rw same (ap (λ (xs : List Message). m ∷ xs) (of_priority-append k ms ns))
  | inr other ↦ rw other (of_priority-append k ms ns)
]

AtMost-weaken : (a b : ℤ) (ms : List Message) → leb_ℤ a b ≡ true → AtMost a ms → AtMost b ms
AtMost-weaken a b [] le h = tt
AtMost-weaken a b (m ∷ ms) le h = (leb_ℤ_trans m.priority a b h.0 le, AtMost-weaken a b ms le h.1)

AtMost-append : (k : ℤ) (ms ns : List Message) → AtMost k ms → AtMost k ns → AtMost k (ms ++ ns)
AtMost-append k [] ns h g = g
AtMost-append k (m ∷ ms) ns h g = (h.0, AtMost-append k ms ns h.1 g)

-- The first message stays in front, or the new one comes before all.
inserted-urgent :
    (n : ℤ) (p r : Ptr) (m x : Message) (c : Chain)
    → leb_ℤ n x.priority ≡ true
    → front n ((r, x) ∷ c) ++ (p, m) ∷ back n ((r, x) ∷ c)
      ≡ (r, x) ∷ (front n c ++ (p, m) ∷ back n c)
inserted-urgent n p r m x c e = rw e refl

inserted-later :
    (n : ℤ) (p r : Ptr) (m x : Message) (c : Chain)
    → leb_ℤ n x.priority ≡ false
    → front n ((r, x) ∷ c) ++ (p, m) ∷ back n ((r, x) ∷ c) ≡ (p, m) ∷ (r, x) ∷ c
inserted-later n p r m x c e = rw e refl

AtMost-inserted :
    (k n : ℤ) (p : Ptr) (m : Message) (c : Chain)
    → leb_ℤ m.priority k ≡ true
    → AtMost k (messages_of c)
    → AtMost k (messages_of (front n c ++ (p, m) ∷ back n c))
AtMost-inserted k n p m [] le h = (le, tt)
AtMost-inserted k n p m ((r, x) ∷ c) le h = elim (Bool-cases (leb_ℤ n x.priority)) [
  | inl urgent ↦
      subst (λ d. AtMost k (messages_of d)) (sym (inserted-urgent n p r m x c urgent))
        (h.0, AtMost-inserted k n p m c le h.1)
  | inr later ↦
      subst (λ d. AtMost k (messages_of d)) (sym (inserted-later n p r m x c later)) (le, h)
]

Descends-inserted :
    (p : Ptr) (m : Message) (c : Chain)
    → Descends (messages_of c)
    → Descends (messages_of (inserted ordering_priority p m c))
Descends-inserted p m [] h = (tt, tt)
Descends-inserted p m ((r, x) ∷ c) h = elim (Bool-cases (leb_ℤ m.priority x.priority)) [
  | inl urgent ↦
      subst (λ d. Descends (messages_of d)) (sym (inserted-urgent m.priority p r m x c urgent))
        (AtMost-inserted x.priority m.priority p m c urgent h.0, Descends-inserted p m c h.1)
  | inr later ↦
      let below = leb_ℤ_total m.priority x.priority later in
      subst (λ d. Descends (messages_of d)) (sym (inserted-later m.priority p r m x c later))
        ((below, AtMost-weaken x.priority m.priority (messages_of c) below h.0), h)
]

of_priority-below :
    (k n : ℤ) (ms : List Message) → leb_ℤ k n ≡ false → AtMost n ms → of_priority k ms ≡ []
unfolding of_priority
of_priority-below k n [] e h = refl
of_priority-below k n (m ∷ ms) e h = elim (Bool-cases (leb_ℤ k m.priority)) [
  | inl le ↦ absurd (cc (e, leb_ℤ_trans k m.priority n le h.0))
  | inr gt ↦ rw gt (of_priority-below k n ms e h.1)
]

and_right : (a b : Bool) → (a && b) ≡ true → b ≡ true
and_right true b e = e
and_right false b e = absurd (cc e)

-- A message that is put before less urgent ones might as well have been put behind them.
of_priority-ahead :
    (k : ℤ) (m x : Message) (ms : List Message)
    → leb_ℤ m.priority x.priority ≡ false
    → AtMost x.priority ms
    → of_priority k (m ∷ x ∷ ms) ≡ of_priority k (x ∷ ms) ++ of_priority k (m ∷ [])
unfolding of_priority
of_priority-ahead k m x ms later h = elim (Bool-cases (leb_ℤ k m.priority && leb_ℤ m.priority k)) [
  | inl same ↦
      let m-k = and_right (leb_ℤ k m.priority) (leb_ℤ m.priority k) same in
      let below : leb_ℤ k x.priority ≡ false = elim (Bool-cases (leb_ℤ k x.priority)) [
        | inl le ↦ absurd (cc (later, leb_ℤ_trans m.priority k x.priority m-k le))
        | inr gt ↦ gt
      ] in
      rw (same, below, of_priority-below k x.priority ms below h) refl
  | inr other ↦ rw other (sym (append-nil _))
]

of_priority-inserted :
    (k : ℤ) (p : Ptr) (m : Message) (c : Chain)
    → Descends (messages_of c)
    → of_priority k (messages_of (inserted ordering_priority p m c))
      ≡ of_priority k (messages_of c) ++ of_priority k (m ∷ [])
unfolding of_priority
of_priority-inserted k p m [] h = refl
of_priority-inserted k p m ((r, x) ∷ c) h = elim (Bool-cases (leb_ℤ m.priority x.priority)) [
  | inl urgent ↦
      ap (λ d. of_priority k (messages_of d)) (inserted-urgent m.priority p r m x c urgent)
      ∙ elim (Bool-cases (leb_ℤ k x.priority && leb_ℤ x.priority k)) [
        | inl same ↦ rw same (ap (λ (xs : List Message). x ∷ xs) (of_priority-inserted k p m c h.1))
        | inr other ↦ rw other (of_priority-inserted k p m c h.1)
      ]
  | inr later ↦
      ap (λ d. of_priority k (messages_of d)) (inserted-later m.priority p r m x c later)
      ∙ of_priority-ahead k m x (messages_of c) later h.0
]

-- A message put in its place keeps the order.
pub inserted-InOrder :
    (o : Ordering) (p : Ptr) (m : Message) (c : Chain) (ms : List Message)
    → InOrder o (messages_of c) ms
    → InOrder o (messages_of (inserted o p m c)) (ms ++ m ∷ [])
inserted-InOrder ordering_none p m c ms h = messages_of-append c _ ∙ ap (λ ns. ns ++ m ∷ []) h
inserted-InOrder ordering_fifo p m c ms h = messages_of-append c _ ∙ ap (λ ns. ns ++ m ∷ []) h
inserted-InOrder ordering_priority p m c ms h = (
  Descends-inserted p m c h.0,
  λ k.
      of_priority-inserted k p m c h.0
      ∙ ap (λ ns. ns ++ of_priority k (m ∷ [])) (h.1 k)
      ∙ sym (of_priority-append k ms (m ∷ [])),
)
