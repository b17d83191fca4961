-- ===== src/MessageQueue/Order.antt =====
-- The queue delivers by time stamp, then by sender, loses nothing and stays within its bound.
use mathlib.Core.List.{Perm}
use mathlib.Core.Option.{some-injective}
use mathlib.Core.List.Perm
use distributed_mutual_exclu.Base.{
  ℕ, ap, sym, suc, ◌≤◌, ◌<◌, ◌≡◌, refl, subst, true, false, ◌⊎◌, inl, inr, List, [], ◌∷◌, none,
  some, arith, length, ltb, All, Bool-cases,
}
use distributed_mutual_exclu.Packet.Types.{Packet}
use distributed_mutual_exclu.MessageQueue.{
  packet_comparator, MessageQueue, insert, push, top, pop, size, drain, printed,
}

-- No packet comes after one behind it.
abbrev pub Ordered : List Packet → Type 0
Ordered [] = Unit {0}
Ordered (p ∷ ps) = All (λ q. packet_comparator p q ≡ false) ps × Ordered ps

pub record IsValid (m : MessageQueue) : Type 0 where
  pub ordered : Ordered m.pq
  pub bounded : length m.pq ≤ m.max_size

after_trans :
    (p q r : Packet)
    → packet_comparator q p ≡ true
    → packet_comparator q r ≡ false
    → packet_comparator p r ≡ false
unfolding packet_comparator
after_trans p q r h k = ground arith

after_asym : (p q : Packet) → packet_comparator q p ≡ true → packet_comparator p q ≡ false
unfolding packet_comparator
after_asym p q h = ground arith

All-after :
    (p q : Packet) (ps : List Packet)
    → packet_comparator q p ≡ true
    → All (λ r. packet_comparator q r ≡ false) ps
    → All (λ r. packet_comparator p r ≡ false) ps
All-after p q [] h a = tt
All-after p q (r ∷ ps) h (a, rest) = (after_trans p q r h a, All-after p q ps h rest)

All-insert :
    (p q : Packet) (ps : List Packet)
    → packet_comparator q p ≡ false
    → All (λ r. packet_comparator q r ≡ false) ps
    → All (λ r. packet_comparator q r ≡ false) (insert p ps)
unfolding insert
All-insert p q [] h a = (h, tt)
All-insert p q (r ∷ ps) h (a, rest) = elim (Bool-cases (packet_comparator r p)) [
  | inl e ↦ rw e (h, (a, rest))
  | inr e ↦ rw e (a, All-insert p q ps h rest)
]

insert-Ordered : (p : Packet) (ps : List Packet) → Ordered ps → Ordered (insert p ps)
unfolding insert
insert-Ordered p [] o = (tt, tt)
insert-Ordered p (q ∷ ps) (a, o) = elim (Bool-cases (packet_comparator q p)) [
  | inl e ↦ rw e ((after_asym p q e, All-after p q ps e a), (a, o))
  | inr e ↦ rw e (All-insert p q ps e a, insert-Ordered p ps o)
]

length-insert : (p : Packet) (ps : List Packet) → length (insert p ps) ≡ suc (length ps)
unfolding insert
length-insert p [] = refl
length-insert p (q ∷ ps) = ground (arith, length-insert p ps)

insert-perm : (p : Packet) (ps : List Packet) → Perm (insert p ps) (p ∷ ps)
unfolding insert
insert-perm p [] = Perm.refl (p ∷ [])
insert-perm p (q ∷ ps) = elim (Bool-cases (packet_comparator q p)) [
  | inl e ↦ rw e (Perm.refl (p ∷ q ∷ ps))
  | inr e ↦ rw e (Perm.trans (Perm.cons q (insert-perm p ps)) (Perm.swap p q ps))
]

-- `push` keeps the order and the bound.
pub push-IsValid : (m : MessageQueue) (p : Packet) → IsValid m → IsValid (push m p).0
unfolding push
push-IsValid m p v = elim (Bool-cases (ltb (length m.pq) m.max_size)) [
  | inl e ↦ rw e (record {
    ordered = insert-Ordered p m.pq v.ordered;
    bounded = ground (arith, length-insert p m.pq);
  })
  | inr e ↦ rw e v
]

pub pop-IsValid : (m m' : MessageQueue) → IsValid m → pop m ≡ some m' → IsValid m'
unfolding pop
pop-IsValid m m' v e = record { ordered = ground arith; bounded = ground arith }

-- `push` says true exactly if there was room; then the packet is in the queue with all that was
-- there, and otherwise the packet is dropped and the queue stays as it was.
pub push_result :
    (m : MessageQueue) (p : Packet)
    → (((push m p).1 ≡ true) × (size m < m.max_size) × Perm (push m p).0.pq (p ∷ m.pq))
      ⊎ (((push m p).1 ≡ false) × (m.max_size ≤ size m) × ((push m p).0 ≡ m))
unfolding push size
push_result m p = elim (Bool-cases (ltb (length m.pq) m.max_size)) [
  | inl e ↦ rw e (inl (refl, ground arith, insert-perm p m.pq))
  | inr e ↦ rw e (inr (refl, ground arith, refl))
]

comparator_refl : (p : Packet) → packet_comparator p p ≡ false
unfolding packet_comparator
comparator_refl p = ground arith

top-first_lem :
    (ps : List Packet) (p : Packet)
    → Ordered ps
    → (elim ps [ [] ↦ none | q ∷ qs ↦ some q ]) ≡ some p
    → All (λ q. packet_comparator p q ≡ false) ps
top-first_lem [] p o e = tt
top-first_lem (q ∷ qs) p (a, o) e =
    let e' : q ≡ p = some-injective q p e in
    subst (λ r. All (λ x. packet_comparator r x ≡ false) (q ∷ qs)) e' (comparator_refl q, a)

-- The packet that `top` returns is before or level with every packet of the queue.
pub top-first :
    (m : MessageQueue) (p : Packet)
    → IsValid m
    → top m ≡ some p
    → All (λ q. packet_comparator p q ≡ false) m.pq
unfolding top
top-first m p v e = top-first_lem m.pq p v.ordered e

drain-all :
    (ps : List Packet) (max_size : ℕ)
    → drain (length ps) (record { pq = ps; max_size = max_size }) ≡ ps
unfolding drain
drain-all [] max_size = refl
drain-all (p ∷ ps) max_size = ap (◌∷◌ p) (drain-all ps max_size)

-- `print` and `writeLog` show every packet once, in the order in which they are delivered, in which
-- no packet comes after one behind it.
pub printed-Ordered : (m : MessageQueue) → IsValid m → (printed m ≡ m.pq) × Ordered (printed m)
unfolding printed size
printed-Ordered m v =
    let all = drain-all m.pq m.max_size in (all, subst Ordered (sym all) v.ordered)
