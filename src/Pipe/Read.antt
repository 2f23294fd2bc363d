-- ===== src/Pipe/Read.antt =====
-- `piperead` on the queue of bytes.
use operating_systems_class.Prelude.{
  ℕ, zero, suc, ◌+◌, ◌≡◌, ◌⊎◌, inl, inr, Bool, false, ◌&&◌, List, [], ◌∷◌, ◌++◌, ◌==◌, arith, refl,
  length, ◌∙◌, Bool-cases,
}
use operating_systems_class.Pipe.{Pipe, finished, get_byte, drop_byte, read_from, piperead}
use operating_systems_class.Pipe.Fifo.{IsPipe, contents, drop-contents, empty-contents}

-- What `piperead` has copied out, and the byte that is lost if it cannot be written.
pub record Got (copyout : ℕ → Bool) (pi : Pipe) (i end : ℕ) (r : Pipe × List ℕ × ℕ) : Type 0 where
  pub is_pipe : IsPipe r.0
  pub count : r.2 ≡ i + length r.1
  pub stop :
      ((contents pi ≡ r.1 ++ contents r.0) × ((r.2 ≡ end) ⊎ (contents r.0 ≡ [])))
      ⊎ ((copyout r.2 ≡ false) × ((b : ℕ) × (contents pi ≡ r.1 ++ (b ∷ contents r.0))))

-- One more byte in front.
longer :
    {A B : Type 0} {all rest : List ℕ} (bs left : List ℕ) (c : ℕ)
    → all ≡ c ∷ rest
    → ((rest ≡ bs ++ left) × A) ⊎ (B × ((b : ℕ) × (rest ≡ bs ++ (b ∷ left))))
    → ((all ≡ (c ∷ bs) ++ left) × A) ⊎ (B × ((b : ℕ) × (all ≡ (c ∷ bs) ++ (b ∷ left))))
longer bs left c e (inl (h, a)) = inl (e ∙ (λ i. c ∷ h i), a)
longer bs left c e (inr (h, (b, t))) = inr (h, (b, e ∙ λ i. c ∷ t i))

read_from-Got :
    (rounds : ℕ) (copyout : ℕ → Bool) (pi : Pipe) (i end : ℕ)
    → IsPipe pi
    → i + rounds ≡ end
    → Got copyout pi i end (read_from rounds copyout pi i)
unfolding read_from
read_from-Got zero copyout pi i end p e = record {
  is_pipe = p;
  count = omega arith;
  stop = inl (refl, inl (omega arith));
}
read_from-Got (suc rounds) copyout pi i end p e = elim (Bool-cases (pi.nread == pi.nwrite)) [
  | inl none_left ↦ rw none_left (record {
    is_pipe = p;
    count = omega arith;
    stop = inl (refl, inr (empty-contents pi p none_left));
  })
  | inr some_left ↦
      let (p', front) = drop-contents pi p some_left in
      elim (Bool-cases (copyout i)) [
        | inr bad ↦
            rw (some_left, bad)
              (record { is_pipe = p'; count = omega arith; stop = inr (bad, (get_byte pi, front)) })
        | inl good ↦
            let g = read_from-Got rounds copyout (drop_byte pi) (i + 1) end p' (omega arith) in
            rw (some_left, good)
              (record {
                is_pipe = g.is_pipe;
                count = omega (arith, g.count);
                stop = longer _ _ (get_byte pi) front g.stop;
              })
      ]
]

-- `piperead` of at most `n` bytes from a pipe in order, when bytes wait or the writing end is
-- closed: it returns the bytes that have waited longest, in order, and their number, and the
-- others still wait; it stops after `n` bytes, at the end of those that wait, or at a byte that
-- cannot be copied out, which is lost.
pub piperead-Got :
    (killed : Bool) (copyout : ℕ → Bool) (pi : Pipe) (n : ℕ)
    → IsPipe pi
    → (pi.nread == pi.nwrite && pi.writeopen) ≡ false
    → (r : Pipe × List ℕ × ℕ) × (piperead killed copyout pi n ≡ (finished, r.0, r.1, r.2))
      × Got copyout pi 0 n r
unfolding piperead
piperead-Got killed copyout pi n p ready =
    (read_from n copyout pi 0, rw ready refl, read_from-Got n copyout pi 0 n p (omega arith))
