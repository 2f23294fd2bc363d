-- ===== src/Pipe/Fifo.antt =====
-- A pipe as a queue of bytes.
use operating_systems_class.Prelude.{
  ℕ, zero, suc, ◌+◌, ◌-◌, ◌%◌, ◌^◌, ◌≤◌, ◌<◌, ◌≡◌, ◌≢◌, true, false, List, [], ◌∷◌, ◌++◌, ◌==◌,
  if◌then◌else◌, arith, ◌∙◌,
}
use operating_systems_class.Pipe.{Pipe, pipesize, put_byte, get_byte, drop_byte}

-- How many bytes wait.
abbrev pub len : Pipe → ℕ
len pi = (pi.nwrite + 2 ^ 32 - pi.nread) % 2 ^ 32

pub record IsPipe (pi : Pipe) : Type 0 where
  pub small_read : pi.nread < 2 ^ 32
  pub small_write : pi.nwrite < 2 ^ 32
  pub fits : len pi ≤ pipesize

-- The `c` bytes from counter `r` on.
pub bytes : ℕ → (ℕ → ℕ) → ℕ → List ℕ
bytes zero d r = []
bytes (suc c) d r = d (r % pipesize) ∷ bytes c d ((r + 1) % 2 ^ 32)

abbrev pub contents : Pipe → List ℕ
contents pi = bytes (len pi) pi.data_ pi.nread

bytes_put :
    (c : ℕ) (d : ℕ → ℕ) (r w ch : ℕ)
    → r < 2 ^ 32
    → c < pipesize
    → w ≡ (r + c) % 2 ^ 32
    → bytes (suc c) (λ j. if j == w % pipesize then ch else d j) r ≡ bytes c d r ++ (ch ∷ [])
unfolding bytes
bytes_put zero d r w ch h s e =
    let same : r % pipesize ≡ w % pipesize = omega arith in ground (arith, same)
bytes_put (suc c) d r w ch h s e =
    let rest = bytes_put c d ((r + 1) % 2 ^ 32) w ch (omega arith) (omega arith) (omega arith) in
    let other : r % pipesize ≢ w % pipesize = omega arith in
    let head : (if r % pipesize == w % pipesize then ch else d (r % pipesize)) ≡ d (r % pipesize) =
      ground (arith, other) in
    λ i. head i ∷ rest i

pub put-contents :
    (pi : Pipe) (ch : ℕ)
    → IsPipe pi
    → (pi.nwrite == (pi.nread + pipesize) % 2 ^ 32) ≡ false
    → IsPipe (put_byte pi ch) × (contents (put_byte pi ch) ≡ contents pi ++ (ch ∷ []))
put-contents pi ch p full =
    let room : pi.nwrite ≢ (pi.nread + pipesize) % 2 ^ 32 = ground (arith, full) in
    let more : len (put_byte pi ch) ≡ suc (len pi) =
      omega (arith, p.small_read, p.small_write, p.fits, room) in
    (
      record {
        small_read = p.small_read;
        small_write = omega arith;
        fits = omega (arith, p.small_read, p.small_write, p.fits, room);
      },
      (λ i. bytes (more i) (put_byte pi ch).data_ pi.nread)
          ∙ bytes_put (len pi) pi.data_ pi.nread pi.nwrite ch p.small_read
              (omega (arith, p.small_read, p.small_write, p.fits, room))
              (omega (arith, p.small_read, p.small_write)),
    )

pub drop-contents :
    (pi : Pipe)
    → IsPipe pi
    → (pi.nread == pi.nwrite) ≡ false
    → IsPipe (drop_byte pi) × (contents pi ≡ get_byte pi ∷ contents (drop_byte pi))
unfolding bytes
drop-contents pi p empty =
    let some_byte : pi.nread ≢ pi.nwrite = ground (arith, empty) in
    let less : len pi ≡ suc (len (drop_byte pi)) =
      omega (arith, p.small_read, p.small_write, p.fits, some_byte) in
    (
      record {
        small_read = omega arith;
        small_write = p.small_write;
        fits = omega (arith, p.small_read, p.small_write, p.fits, some_byte);
      },
      λ i. bytes (less i) pi.data_ pi.nread,
    )

pub empty-contents : (pi : Pipe) → IsPipe pi → (pi.nread == pi.nwrite) ≡ true → contents pi ≡ []
unfolding bytes
empty-contents pi p h =
    let same : pi.nread ≡ pi.nwrite = ground (arith, h) in
    let none_left : len pi ≡ 0 = omega (arith, same, p.small_read) in
    λ i. bytes (none_left i) pi.data_ pi.nread
