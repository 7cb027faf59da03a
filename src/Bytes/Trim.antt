-- ===== src/Bytes/Trim.antt =====
-- What trimming at the end and the last position that passes a test come to.
use stub.Prelude.{
  ℕ, suc, ◌≡◌, refl, ap, sym, Bool, true, false, not, Option, none, some, List, [], ◌∷◌, ◌++◌,
  arith, All, take, Bool-cases, inl, inr,
}
use stub.Bytes.{rposition, trim_end, keep_unless}

-- the last item, and whether it passes a test
abbrev pub EndsOutside : (ℕ → Bool) → List ℕ → Type 0
EndsOutside p [] = Unit
EndsOutside p (x ∷ []) = p x ≡ false
EndsOutside p (x ∷ y ∷ ys) = EndsOutside p (y ∷ ys)

-- `xs` is `kept` with items behind it that all pass `p`, and no such item ends `kept`.
pub record Trimmed (p : ℕ → Bool) (xs kept : List ℕ) : Type 0 where
  pub tail : List ℕ
  pub split : xs ≡ kept ++ tail
  pub dropped : All (λ b. p b ≡ true) tail
  pub ends : EndsOutside p kept

keep-Trimmed :
    (p : ℕ → Bool) (x : ℕ) (xs kept : List ℕ)
    → Trimmed p xs kept
    → Trimmed p (x ∷ xs) (keep_unless (p x) x kept)
keep-Trimmed p x xs [] t = elim (Bool-cases (p x)) [
  | inl pass ↦ rw pass (record {
    tail = x ∷ t.tail;
    split = ap (λ ys. x ∷ ys) t.split;
    dropped = (pass, t.dropped);
    ends = tt;
  })
  | inr stay ↦ rw stay (record {
    tail = t.tail;
    split = ap (λ ys. x ∷ ys) t.split;
    dropped = t.dropped;
    ends = stay;
  })
]
keep-Trimmed p x xs (y ∷ ys) t = record {
  tail = t.tail;
  split = ap (λ ys. x ∷ ys) t.split;
  dropped = t.dropped;
  ends = t.ends;
}

pub trim_end-Trimmed : (p : ℕ → Bool) (xs : List ℕ) → Trimmed p xs (trim_end p xs)
unfolding trim_end
trim_end-Trimmed p [] = record { tail = []; split = refl; dropped = tt; ends = tt }
trim_end-Trimmed p (x ∷ xs) = keep-Trimmed p x xs (trim_end p xs) (trim_end-Trimmed p xs)

-- where the prefix up to the last item that passes ends
abbrev pub end_of : Option ℕ → ℕ
end_of none = 0
end_of (some i) = suc i

pub take-rposition :
    (p : ℕ → Bool) (xs : List ℕ) → take (end_of (rposition p xs)) xs ≡ trim_end (λ b. not (p b)) xs
unfolding rposition trim_end
take-rposition p [] = refl
take-rposition p (x ∷ xs) = ground (arith, take-rposition p xs)

-- What is kept is determined by the list.
Trimmed-nil : (p : ℕ → Bool) (xs : List ℕ) → All (λ b. p b ≡ true) xs → trim_end p xs ≡ []
unfolding trim_end
Trimmed-nil p [] h = refl
Trimmed-nil p (x ∷ xs) h = rw (Trimmed-nil p xs h.1, h.0)

trim_end-append :
    (p : ℕ → Bool) (kept tail : List ℕ)
    → All (λ b. p b ≡ true) tail
    → EndsOutside p kept
    → trim_end p (kept ++ tail) ≡ kept
unfolding trim_end
trim_end-append p [] tail h ends = Trimmed-nil p tail h
trim_end-append p (x ∷ []) tail h ends = rw (Trimmed-nil p tail h, ends)
trim_end-append p (x ∷ y ∷ ys) tail h ends = rw (trim_end-append p (y ∷ ys) tail h ends)

pub Trimmed-unique : (p : ℕ → Bool) (xs kept : List ℕ) → Trimmed p xs kept → kept ≡ trim_end p xs
Trimmed-unique p xs kept t = sym (rw t.split (trim_end-append p kept t.tail t.dropped t.ends))
