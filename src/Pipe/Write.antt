-- ===== src/Pipe/Write.antt =====
-- `pipewrite` on the queue of bytes.
use operating_systems_class.Prelude.{
  ℕ, zero, suc, ◌+◌, ◌%◌, ◌^◌, ◌≡◌, inl, inr, Bool, true, false, not, ◌||◌, Option, none, some,
  List, [], ◌∷◌, ◌++◌, ◌==◌, arith, refl, sym, ◌∙◌, Bool-cases,
}
use mathlib.Core.List.{append-nil, append_assoc}
use operating_systems_class.Pipe.{
  Pipe, Status, failed, sleeping, finished, pipesize, put_byte, write_from, pipewrite,
}
use operating_systems_class.Pipe.Fifo.{len, IsPipe, contents, put-contents}

-- The bytes `bs` are those that `copyin` has from `i` up to `j`.
pub Sent : (ℕ → Option ℕ) → ℕ → List ℕ → ℕ → Type 0
Sent copyin i [] j = i ≡ j
Sent copyin i (b ∷ bs) j = (copyin i ≡ some b) × Sent copyin (i + 1) bs j

-- Why a write stops.
pub data Stop (killed : Bool) (copyin : ℕ → Option ℕ) (end : ℕ) : Status × Pipe × ℕ → Type 0 where
  is_failed :
      {pi : Pipe} {i : ℕ}
      → (not pi.readopen || killed) ≡ true
      → Stop killed copyin end (failed, pi, i)
  is_full : {pi : Pipe} {i : ℕ} → len pi ≡ pipesize → Stop killed copyin end (sleeping, pi, i)
  at_end : {pi : Pipe} {i : ℕ} → i ≡ end → Stop killed copyin end (finished, pi, i)
  cannot_read : {pi : Pipe} {i : ℕ} → copyin i ≡ none → Stop killed copyin end (finished, pi, i)

pub record Wrote (killed : Bool) (copyin : ℕ → Option ℕ) (pi : Pipe) (i end : ℕ)
    (r : Status × Pipe × ℕ) : Type 0 where
  pub written : List ℕ
  pub sent : Sent copyin i written r.2
  pub is_pipe : IsPipe r.1
  pub appended : contents r.1 ≡ contents pi ++ written
  pub stop : Stop killed copyin end r

write_from-Wrote :
    (rounds : ℕ) (killed : Bool) (copyin : ℕ → Option ℕ) (pi : Pipe) (i end : ℕ)
    → IsPipe pi
    → i + rounds ≡ end
    → Wrote killed copyin pi i end (write_from rounds killed copyin pi i)
unfolding write_from Sent
write_from-Wrote zero killed copyin pi i end p e = record {
  written = [];
  sent = refl;
  is_pipe = p;
  appended = sym (append-nil (contents pi));
  stop = at_end (omega arith);
}
write_from-Wrote (suc rounds) killed copyin pi i end p e =
    elim (Bool-cases (not pi.readopen || killed)) [
      | inl f ↦ rw f (record {
        written = [];
        sent = refl;
        is_pipe = p;
        appended = sym (append-nil (contents pi));
        stop = is_failed f;
      })
      | inr f ↦ elim (Bool-cases (pi.nwrite == (pi.nread + pipesize) % 2 ^ 32)) [
        | inl full ↦
            rw (f, full)
              (record {
                written = [];
                sent = refl;
                is_pipe = p;
                appended = sym (append-nil (contents pi));
                stop = is_full (
                    let at : pi.nwrite ≡ (pi.nread + pipesize) % 2 ^ 32 = ground (arith, full) in
                    omega (arith, p.small_read, p.small_write, at));
              })
        | inr room ↦
            rw (f, room)
              (go (copyin i) refl room
                (λ pi' p'. write_from-Wrote rounds killed copyin pi' (i + 1) end p' (omega arith)))
      ]
    ]
  where
    go :
        (c : Option ℕ)
        → copyin i ≡ c
        → (pi.nwrite == (pi.nread + pipesize) % 2 ^ 32) ≡ false
        → ((pi' : Pipe)
            → IsPipe pi'
            → Wrote killed copyin pi' (i + 1) end (write_from rounds killed copyin pi' (i + 1)))
        → Wrote killed copyin pi i end (elim c [
          | none ↦ (finished, pi, i)
          | some ch ↦ write_from rounds killed copyin (put_byte pi ch) (i + 1)
        ])
    go none h room rest = record {
      written = [];
      sent = refl;
      is_pipe = p;
      appended = sym (append-nil (contents pi));
      stop = cannot_read h;
    }
    go (some ch) h room rest =
        let (p', after) = put-contents pi ch p room in
        let w = rest (put_byte pi ch) p' in
        record {
          written = ch ∷ w.written;
          sent = (h, w.sent);
          is_pipe = w.is_pipe;
          appended =
              w.appended
              ∙ (λ i. after i ++ w.written)
              ∙ append_assoc (contents pi) (ch ∷ []) w.written;
          stop = w.stop;
        }

-- `pipewrite` to a pipe in order (counters of 32 bits, at most PIPESIZE bytes waiting), up to
-- where it sleeps or returns, keeps it in order; the bytes that it has taken from the caller, in
-- order and as many as it counts, are behind those that waited. It fails only if the reading end
-- is closed or the process is killed, sleeps only on a full pipe, and otherwise stops after `n`
-- bytes or at one that cannot be read.
pub pipewrite-Wrote :
    (killed : Bool) (copyin : ℕ → Option ℕ) (pi : Pipe) (n : ℕ)
    → IsPipe pi
    → Wrote killed copyin pi 0 n (pipewrite killed copyin pi n)
unfolding pipewrite
pipewrite-Wrote killed copyin pi n p = write_from-Wrote n killed copyin pi 0 n p (omega arith)
