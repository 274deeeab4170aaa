-- ===== src/Ipc/ArrShm/Memory.antt =====
-- What a write leaves as it was, and what it leaves where it wrote.
use my_resource.Base.{
  ℕ, zero, suc, ◌+◌, ◌≤◌, ◌≡◌, refl, ap, List, [], ◌∷◌, length, take, drop, arith, ◌⊎◌, inl, inr,
}
use my_resource.Ipc.ArrShm.{over, put}

length-over : (bs mem : List ℕ) → length (over bs mem) ≡ length mem
unfolding over
length-over [] mem = refl
length-over (b ∷ bs) [] = refl
length-over (b ∷ bs) (m ∷ mem) = ap suc (length-over bs mem)

pub length-put : (p : ℕ) (bs mem : List ℕ) → length (put p bs mem) ≡ length mem
unfolding put
length-put zero bs mem = length-over bs mem
length-put (suc p) bs [] = refl
length-put (suc p) bs (m ∷ mem) = ap suc (length-put p bs mem)

take-put : (k p : ℕ) (bs mem : List ℕ) → k ≤ p → take k (put p bs mem) ≡ take k mem
unfolding put
take-put zero p bs mem h = refl
take-put (suc k) zero bs mem h = absurd (omega arith)
take-put (suc k) (suc p) bs [] h = refl
take-put (suc k) (suc p) bs (m ∷ mem) h = ap (λ l. m ∷ l) (take-put k p bs mem (omega arith))

-- In front of the write.
pub take-drop-put :
    (k r p : ℕ) (bs mem : List ℕ) → r + k ≤ p → take k (drop r (put p bs mem)) ≡ take k (drop r mem)
unfolding put
take-drop-put k zero p bs mem h = take-put k p bs mem (omega arith)
take-drop-put k (suc r) zero bs mem h = absurd (omega arith)
take-drop-put k (suc r) (suc p) bs [] h = refl
take-drop-put k (suc r) (suc p) bs (m ∷ mem) h = take-drop-put k r p bs mem (omega arith)

drop-over : (r : ℕ) (bs mem : List ℕ) → length bs ≤ r → drop r (over bs mem) ≡ drop r mem
unfolding over
drop-over r [] mem h = refl
drop-over zero (b ∷ bs) mem h = absurd (omega arith)
drop-over (suc r) (b ∷ bs) [] h = refl
drop-over (suc r) (b ∷ bs) (m ∷ mem) h = drop-over r bs mem (omega arith)

-- Behind the write.
pub drop-put : (r p : ℕ) (bs mem : List ℕ) → p + length bs ≤ r → drop r (put p bs mem) ≡ drop r mem
unfolding put
drop-put r zero bs mem h = drop-over r bs mem (omega arith)
drop-put zero (suc p) bs mem h = absurd (omega arith)
drop-put (suc r) (suc p) bs [] h = refl
drop-put (suc r) (suc p) bs (m ∷ mem) h = drop-put r p bs mem (omega arith)

take-over : (bs mem : List ℕ) → length bs ≤ length mem → take (length bs) (over bs mem) ≡ bs
unfolding over
take-over [] mem h = refl
take-over (b ∷ bs) [] h = absurd (omega arith)
take-over (b ∷ bs) (m ∷ mem) h = ap (λ l. b ∷ l) (take-over bs mem (omega arith))

-- Where it wrote.
pub take-drop-put_same :
    (p : ℕ) (bs mem : List ℕ)
    → p + length bs ≤ length mem
    → take (length bs) (drop p (put p bs mem)) ≡ bs
unfolding put
take-drop-put_same zero bs mem h = take-over bs mem (omega arith)
take-drop-put_same (suc p) bs [] h = absurd (omega arith)
take-drop-put_same (suc p) bs (m ∷ mem) h = take-drop-put_same p bs mem (omega arith)

-- Apart from the write.
pub take-drop-put_apart :
    (k r p : ℕ) (bs mem : List ℕ)
    → (r + k ≤ p) ⊎ (p + length bs ≤ r)
    → take k (drop r (put p bs mem)) ≡ take k (drop r mem)
take-drop-put_apart k r p bs mem (inl h) = take-drop-put k r p bs mem h
take-drop-put_apart k r p bs mem (inr h) = ap (take k) (drop-put r p bs mem h)
