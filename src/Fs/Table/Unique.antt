-- ===== src/Fs/Table/Unique.antt =====
-- `iget` against the references to each inode.
use operating_systems_class.Prelude.{
  ℕ, zero, suc, ◌+◌, ◌<◌, ◌≡◌, ◌≢◌, ◌⊎◌, inl, inr, Bool-cases, true, false, ◌&&◌, Option, none,
  some, ◌==◌, if◌then◌else◌, arith, refl, ap, ◌∙◌, sym, subst,
}
use native.Mathlib.Decide.{ℕ_discrete}
use mathlib.Core.Option.{some-injective}
use operating_systems_class.Run.{Run, ok, fault}
use operating_systems_class.Fs.Table.{
  ninode, Entry, Table, put_entry, is_entry, is_none, recycle_entry, iget_from, iget,
}
use operating_systems_class.Fs.Table.References.{
  references, references-put_entry, references_pos, references_none, put_entry_self, put_entry_ne,
}

-- No two entries with references are for the same inode.
abbrev pub IsUnique : Table → Type 0
IsUnique t =
    (i j : ℕ)
    → i < ninode
    → j < ninode
    → 0 < (t i).ref
    → 0 < (t j).ref
    → (t i).dev ≡ (t j).dev
    → (t i).inode.inum ≡ (t j).inode.inum
    → i ≡ j

-- The entry that `iget` returns.
pub record Got (dev inum : ℕ) (t t' : Table) (i : ℕ) : Type 0 where
  pub in_table : i < ninode
  pub unique : IsUnique t'
  pub its_dev : (t' i).dev ≡ dev
  pub its_inum : (t' i).inode.inum ≡ inum
  pub fresh : references t dev inum ≡ 0 → (t' i).inode.valid ≡ false
  pub kept : 0 < references t dev inum → (t' i).inode ≡ (t i).inode
  pub others : (j : ℕ) → j ≢ i → t' j ≡ t j
  pub counted :
      (d n : ℕ)
      → references t' d n ≡ references t d n + (if (d == dev) && (n == inum) then 1 else 0)

-- No entry in front of `i` is for the inode, and `empty` is a free one if there is any.
record Searched (dev inum : ℕ) (t : Table) (i : ℕ) (empty : Option ℕ) : Type 0 where
  none_before : (j : ℕ) → j < i → is_entry dev inum (t j) ≡ false
  free : (e : ℕ) → empty ≡ some e → e < ninode × ((t e).ref ≡ 0)
  all_used : empty ≡ none → (j : ℕ) → j < i → 0 < (t j).ref

-- An entry that is for another inode than all others with references.
pub put_entry-IsUnique :
    (t : Table) (i : ℕ) (e : Entry)
    → IsUnique t
    → ((j : ℕ)
        → j < ninode
        → j ≢ i
        → 0 < (t j).ref
        → (t j).dev ≡ e.dev
        → (t j).inode.inum ≢ e.inode.inum)
    → IsUnique (put_entry t i e)
put_entry-IsUnique t i e u n a b ha hb ra rb d k =
    let at : (x : ℕ) → x ≡ i → put_entry t i e x ≡ e =
      λ x q. ap (put_entry t i e) q ∙ put_entry_self t i e in
    let off : (x : ℕ) → x ≢ i → put_entry t i e x ≡ t x = put_entry_ne t i e in
    elim (ℕ_discrete a i) [
      | yes p ↦ elim (ℕ_discrete b i) [
        | yes q ↦ p ∙ sym q
        | no q ↦ absurd (
            n b hb q (subst (λ x. 0 < x.ref) (off b q) rb)
              ((λ j. (sym (off b q) j).dev) ∙ sym d ∙ λ j. (at a p j).dev)
              ((λ j. (sym (off b q) j).inode.inum) ∙ sym k ∙ λ j. (at a p j).inode.inum))
      ]
      | no p ↦ elim (ℕ_discrete b i) [
        | yes q ↦ absurd (
            n a ha p (subst (λ x. 0 < x.ref) (off a p) ra)
              ((λ j. (sym (off a p) j).dev) ∙ d ∙ λ j. (at b q j).dev)
              ((λ j. (sym (off a p) j).inode.inum) ∙ k ∙ λ j. (at b q j).inode.inum))
        | no q ↦
            u a b ha hb (subst (λ x. 0 < x.ref) (off a p) ra) (subst (λ x. 0 < x.ref) (off b q) rb)
              ((λ j. (sym (off a p) j).dev) ∙ d ∙ λ j. (off b q j).dev)
              ((λ j. (sym (off a p) j).inode.inum) ∙ k ∙ λ j. (off b q j).inode.inum)
      ]
    ]

module _ (dev inum : ℕ) (t : Table) (u : IsUnique t) where
  -- One more reference.
  found-Got :
      (i : ℕ)
      → i < ninode
      → is_entry dev inum (t i) ≡ true
      → Got dev inum t (put_entry t i (record (t i) { ref = (t i).ref + 1 })) i
  found-Got i h e =
      let e' : Entry = record (t i) { ref = (t i).ref + 1 } in
      let self = put_entry_self t i e' in
      record {
        in_table = h;
        unique =
            put_entry-IsUnique t i e' u (λ j l q r d k. q (u j i l h r (ground (arith, e)) d k));
        its_dev = (λ j. (self j).dev) ∙ ground (arith, e);
        its_inum = (λ j. (self j).inode.inum) ∙ ground (arith, e);
        fresh = λ z. absurd (omega (arith, z, references_pos t i dev inum h e));
        kept = λ z j. (self j).inode;
        others = put_entry_ne t i e';
        counted = λ d n. ground (arith, e, references-put_entry t i e' d n h);
      }

  -- A free entry for an inode that has none.
  recycle-Got :
      (i : ℕ)
      → i < ninode
      → (t i).ref ≡ 0
      → ((j : ℕ) → j < ninode → is_entry dev inum (t j) ≡ false)
      → Got dev inum t
          (put_entry t i (record {
            dev = dev;
            ref = 1;
            inode = record (t i).inode { inum = inum; valid = false };
          }))
          i
  recycle-Got i h z n =
      let e' : Entry = record {
        dev = dev;
        ref = 1;
        inode = record (t i).inode { inum = inum; valid = false };
      } in
      let self = put_entry_self t i e' in
      record {
        in_table = h;
        unique = put_entry-IsUnique t i e' u (λ j l q r d k. ground (arith, n j l, r, d, k));
        its_dev = λ j. (self j).dev;
        its_inum = λ j. (self j).inode.inum;
        fresh = λ z j. (self j).inode.valid;
        kept = λ p. absurd (omega (arith, p, references_none t dev inum n));
        others = put_entry_ne t i e';
        counted = λ d k. ground (arith, z, references-put_entry t i e' d k h);
      }

  search_on :
      (i : ℕ) (empty : Option ℕ)
      → i < ninode
      → is_entry dev inum (t i) ≡ false
      → Searched dev inum t i empty
      → Searched dev inum t (i + 1) (if ((t i).ref == 0) && is_none empty then some i else empty)
  search_on i empty h f s =
      let before : (j : ℕ) → j < i + 1 → is_entry dev inum (t j) ≡ false = λ j l.
        elim (ℕ_discrete j i) [
          | yes q ↦ ap (λ k. is_entry dev inum (t k)) q ∙ f
          | no q ↦ s.none_before j (omega (arith, q, l))
        ] in
      elim (Bool-cases (((t i).ref == 0) && is_none empty)) [
        | inl z ↦ rw z (record {
          none_before = before;
          free = λ e q.
              let same = some-injective i e q in
              (subst (λ k. k < ninode) same h, ap (λ k. (t k).ref) (sym same) ∙ ground (arith, z));
          all_used = λ q. absurd (ground (arith, q));
        })
        | inr z ↦ rw z (record {
          none_before = before;
          free = s.free;
          all_used = λ q j l. elim (ℕ_discrete j i) [
            | yes e ↦
                let here : (t j).ref ≡ (t i).ref = ap (λ k. (t k).ref) e in
                let none_yet : is_none empty ≡ true = ap is_none q in
                ground (arith, here, none_yet, z)
            | no e ↦ s.all_used q j (omega (arith, e, l))
          ];
        })
      ]

  -- How the loop of `iget` ends.
  Ends : Run (Table × ℕ) → Type 0
  Ends r =
      ((t' : Table) × (i : ℕ) × (r ≡ ok (t', i)) × Got dev inum t t' i)
      ⊎ ((r ≡ fault) × (references t dev inum ≡ 0) × ((j : ℕ) → j < ninode → 0 < (t j).ref))

  recycle_entry-Ends :
      (empty : Option ℕ) → Searched dev inum t ninode empty → Ends (recycle_entry dev inum t empty)
  unfolding Ends recycle_entry
  recycle_entry-Ends none s = inr (refl, references_none t dev inum s.none_before, s.all_used refl)
  recycle_entry-Ends (some e) s =
      let (h, z) = s.free e refl in
      inl (
        put_entry t e (record {
          dev = dev;
          ref = 1;
          inode = record (t e).inode { inum = inum; valid = false };
        }),
        e,
        refl,
        recycle-Got e h z s.none_before,
      )

  iget_from-Ends :
      (rounds i : ℕ) (empty : Option ℕ)
      → i + rounds ≡ ninode
      → Searched dev inum t i empty
      → Ends (iget_from rounds dev inum t i empty)
  unfolding iget_from Ends
  iget_from-Ends zero i empty e s =
      recycle_entry-Ends empty (subst (λ k. Searched dev inum t k empty) (omega arith) s)
  iget_from-Ends (suc rounds) i empty e s = elim (Bool-cases (is_entry dev inum (t i))) [
    | inl f ↦ rw f (
        inl (
          put_entry t i (record (t i) { ref = (t i).ref + 1 }),
          i,
          refl,
          found-Got i (omega arith) f,
        ))
    | inr f ↦ rw f (
        iget_from-Ends rounds (i + 1) (if ((t i).ref == 0) && is_none empty then some i else empty)
          (omega arith) (search_on i empty (omega arith) f s))
  ]

-- In a table without two entries for one inode, `iget` returns an entry for the inode asked for, which has one
-- reference more than before, with the references to every other inode and all other entries as they
-- were; no two entries are for one inode then either. An entry that was there keeps its content, and a new
-- one is not valid. It panics only if there is no entry for the inode and every one has references.
pub iget_refines :
    (dev inum : ℕ) (t : Table)
    → IsUnique t
    → ((t' : Table) × (i : ℕ) × (iget dev inum t ≡ ok (t', i)) × Got dev inum t t' i)
      ⊎ ((iget dev inum t ≡ fault)
          × (references t dev inum ≡ 0)
          × ((j : ℕ) → j < ninode → 0 < (t j).ref))
unfolding iget Ends
iget_refines dev inum t u = iget_from-Ends dev inum t u ninode 0 none refl (record {
  none_before = λ j l. absurd (omega arith);
  free = λ e q. absurd (ground (arith, q));
  all_used = λ q j l. absurd (omega arith);
})
