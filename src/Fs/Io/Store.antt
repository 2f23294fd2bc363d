-- ===== src/Fs/Io/Store.antt =====
-- The change of one block of a file.
use operating_systems_class.Prelude.{
  ℕ, ◌/◌, ◌%◌, ◌<◌, ◌≡◌, ◌≢◌, inl, ◌==◌, if◌then◌else◌, arith, refl, ap, ◌∙◌, sym, subst,
}
use native.Mathlib.Decide.{ℕ_discrete, dec_lt}
use operating_systems_class.Fs.{bsize, Super, Fs}
use operating_systems_class.Fs.Bitmap.{IsFs}
use operating_systems_class.Fs.Inode.{Inode, maxfile}
use operating_systems_class.Fs.Inode.Blocks.{block, IsData, IsInode, content}
use operating_systems_class.Fs.Inode.Change.{same_blocks, same_used, change-IsFs, change-IsInode}
use operating_systems_class.Fs.Inode.Keeps.{Extends}

-- The byte of the file at `x`.
abbrev pub byte : Fs → Inode → ℕ → ℕ
byte fs ip x = content fs ip (x / bsize) (x % bsize)

-- Block `k` of the file, which has the address `a`, has got the bytes `d`.
pub record Stored (fs : Fs) (ip : Inode) (k a : ℕ) (d : ℕ → ℕ) (fs' : Fs) : Type 0 where
  pub in_file : k < maxfile
  pub some_block : a ≢ 0
  pub address : block fs ip k ≡ a
  pub here : fs'.disk a ≡ d
  pub others : (c : ℕ) → c ≢ a → fs'.disk c ≡ fs.disk c

module _ {sb : Super} {fs : Fs} {ip : Inode} {k a : ℕ} {d : ℕ → ℕ} {fs' : Fs} (m : IsFs sb fs)
    (i : IsInode sb fs ip) (s : Stored fs ip k a d fs') where
  stored-IsData : IsData sb fs a
  stored-IsData =
      subst (IsData sb fs) s.address
        (i.data_ k (omega (arith, s.in_file)) (λ z. s.some_block (sym s.address ∙ z)))

  -- The block is not the indirect block.
  not_indirect : block fs ip maxfile ≢ 0 → block fs ip maxfile ≢ a
  not_indirect n e = i.once k maxfile s.in_file (omega arith) n (s.address ∙ sym e)

  pub Stored-Extends : Extends sb fs ip fs' ip
  Stored-Extends = record {
    is_fs = change-IsFs m i stored-IsData not_indirect fs' s.others;
    is_inode = change-IsInode m i stored-IsData not_indirect fs' s.others;
    marks = λ c h e. same_used m i stored-IsData not_indirect fs' s.others c h ∙ e;
    blocks = λ j h. inl (same_blocks m i stored-IsData not_indirect fs' s.others j h);
    foreign = λ c f n. s.others c (λ e. n k (omega (arith, s.in_file)) (s.address ∙ sym e));
    fields = refl;
  }

  other_index : (j : ℕ) → j < maxfile → j ≢ k → block fs ip j ≢ 0 → block fs ip j ≢ block fs ip k
  other_index j h e n q = elim (dec_lt j k) [
    | yes l ↦ i.once j k l (omega (arith, s.in_file)) (λ z. s.some_block (sym s.address ∙ z)) q
    | no l ↦ i.once k j (omega arith) (omega arith) n (sym q)
  ]

  pub Stored-content :
      (j o : ℕ) → j < maxfile → content fs' ip j o ≡ (if j == k then d o else content fs ip j o)
  Stored-content j o h =
      let same = same_blocks m i stored-IsData not_indirect fs' s.others j (omega arith) in
      elim (ℕ_discrete j k) [
        | yes e ↦
            let at : block fs' ip j ≡ a = same ∙ ap (block fs ip) e ∙ s.address in
            let bytes : fs'.disk (block fs' ip j) o ≡ d o =
              (λ t. fs'.disk (at t) o) ∙ λ t. s.here t o in
            ground (arith, e, at, bytes, s.some_block)
        | no e ↦ elim (ℕ_discrete (block fs ip j) 0) [
          | yes z ↦ ground (arith, e, same, z)
          | no n ↦
              let apart : block fs ip j ≢ a = λ q. other_index j h e n (q ∙ sym s.address) in
              let bytes : fs'.disk (block fs' ip j) o ≡ fs.disk (block fs ip j) o =
                (λ t. fs'.disk (same t) o) ∙ λ t. s.others (block fs ip j) apart t o in
              ground (arith, e, same, n, bytes)
        ]
      ]
