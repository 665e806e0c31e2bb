-- ===== src/Extractor/Chunks.antt =====
-- The chunks of getDataSlice_ against the positions that they stand for.
use fimex.Slice.Builder.{at}
use fimex.Prelude.Result.{ok}
use fimex.Extractor.Slices.{single_chunks, chunks_of, chunk, chunk_rounds}
use fimex.Prelude.Words.{wsub, wadd, size_mod}
use mathlib.Core.List.{append_assoc, append-nil}
use fimex.Prelude.{
  upto-suc, upto, true, false, inr, get_elem?-get_or, inl, ◌==◌, Bool-cases, ◌-◌, length, ◌≤◌, sym,
  ◌∙◌, ◌<◌, ap, ◌+◌, get_or, ℕ, List, [], ◌∷◌, ◌++◌, zero, suc, ◌≡◌, arith, refl,
}

-- The positions that a list of chunks reads.
unfoldable pub expand : List (ℕ × ℕ) → List ℕ
expand [] = []
expand ((start, size) ∷ chunks) = upto start size ++ expand chunks

expand-append :
    (chunks : List (ℕ × ℕ)) (start size : ℕ)
    → expand (chunks ++ (start, size) ∷ []) ≡ expand chunks ++ upto start size
unfolding expand
expand-append [] start size = append-nil (upto start size)
expand-append ((s, n) ∷ chunks) start size =
    ap (λ (xs : List ℕ). upto s n ++ xs) (expand-append chunks start size)
    ∙ sym (append_assoc (upto s n) (expand chunks) (upto start size))

-- The next `n` positions from `i` on.
unfoldable pub from_to : List ℕ → ℕ → ℕ → List ℕ
from_to positions i zero = []
from_to positions i (suc n) = get_or positions i 0 ∷ from_to positions (i + 1) n

regroup : (a u : List ℕ) (p : ℕ) (r : List ℕ) → (a ++ (u ++ p ∷ [])) ++ r ≡ (a ++ u) ++ p ∷ r
regroup a u p r =
    ap (λ (x : List ℕ). x ++ r) (sym (append_assoc a u (p ∷ []))) ∙ append_assoc (a ++ u) (p ∷ []) r

module _ (positions : List ℕ) (small : (j : ℕ) → get_or positions j 0 + 1 < size_mod) where
  -- The two branches of a round.
  longer :
      (rounds i start last : ℕ) (chunks : List (ℕ × ℕ))
      → i < length positions
      → last + 1 < size_mod
      → (get_or positions i 0 == last + 1) ≡ true
      → chunk_rounds positions (suc rounds) i start last chunks
        ≡ chunk_rounds positions rounds (i + 1) start (get_or positions i 0) chunks
  unfolding chunk_rounds
  longer rounds i start last chunks h b e =
      let l : wadd last 1 ≡ last + 1 = omega arith in
      rw (at, get_elem?-get_or positions i 0 h, l, e) refl

  another :
      (rounds i start last : ℕ) (chunks : List (ℕ × ℕ))
      → i < length positions
      → start ≤ last
      → last + 1 < size_mod
      → (get_or positions i 0 == last + 1) ≡ false
      → chunk_rounds positions (suc rounds) i start last chunks
        ≡ chunk_rounds positions rounds
            (i + 1)
            (get_or positions i 0)
            (get_or positions i 0)
            (chunks ++ (start, last - start + 1) ∷ [])
  unfolding chunk_rounds chunk
  another rounds i start last chunks h le b e =
      let l : wadd last 1 ≡ last + 1 = omega arith in
      let n : wadd (wsub last start) 1 ≡ last - start + 1 = omega arith in
      rw (at, get_elem?-get_or positions i 0 h, l, e, n) refl

  -- What was read when the loop stands with a chunk from `start` to `last` open.
  chunk_rounds-expand :
      (rounds i start last : ℕ) (chunks : List (ℕ × ℕ))
      → i + rounds ≤ length positions
      → start ≤ last
      → last + 1 < size_mod
      → (cs : List (ℕ × ℕ)) × (chunk_rounds positions rounds i start last chunks ≡ ok cs)
        × (expand cs
            ≡ (expand chunks ++ upto start (last - start + 1)) ++ from_to positions i rounds)
  unfolding chunk_rounds chunk from_to upto
  chunk_rounds-expand zero i start last chunks h le b =
      let n : wadd (wsub last start) 1 ≡ last - start + 1 = omega arith in
      (
        chunks ++ (start, last - start + 1) ∷ [],
        rw n refl,
        expand-append chunks start (last - start + 1) ∙ sym (append-nil _),
      )
  chunk_rounds-expand (suc rounds) i start last chunks h le b =
      let p = get_or positions i 0 in
      let n : wadd (wsub last start) 1 ≡ last - start + 1 = omega arith in
      let l : wadd last 1 ≡ last + 1 = omega arith in
      elim (Bool-cases (p == last + 1)) [
        | inl e ↦
            let q : p ≡ last + 1 = ground arith in
            let m : p - start + 1 ≡ suc (last - start + 1) = omega (arith, q, le) in
            let one_more : upto start (p - start + 1) ≡ upto start (last - start + 1) ++ p ∷ [] =
              ap (upto start) m
              ∙ upto-suc start (last - start + 1)
              ∙ ap (λ (k : ℕ). upto start (last - start + 1) ++ k ∷ []) (omega (arith, q, le)) in
            let grow : (expand chunks ++ upto start (p - start + 1))
                  ++ from_to positions (i + 1) rounds
                ≡ (expand chunks ++ upto start (last - start + 1))
                  ++ p ∷ from_to positions (i + 1) rounds =
              ap (λ (u : List ℕ). (expand chunks ++ u) ++ from_to positions (i + 1) rounds) one_more
              ∙ regroup (expand chunks) (upto start (last - start + 1)) p _ in
            let (cs, r, x) =
              chunk_rounds-expand rounds (i + 1) start p chunks (omega (arith, h)) (omega arith)
                (small i) in
            (cs, longer rounds i start last chunks (omega (arith, h)) b e ∙ r, x ∙ grow)
        | inr e ↦
            let new : (expand (chunks ++ (start, last - start + 1) ∷ []) ++ upto p (p - p + 1))
                  ++ from_to positions (i + 1) rounds
                ≡ (expand chunks ++ upto start (last - start + 1))
                  ++ p ∷ from_to positions (i + 1) rounds =
              (let one : p - p + 1 ≡ 1 = omega arith in
                rw (one, expand-append chunks start (last - start + 1))
                  (append_assoc (expand chunks ++ upto start (last - start + 1)) (p ∷ []) _)) in
            let (cs, r, x) =
              chunk_rounds-expand rounds (i + 1) p p (chunks ++ (start, last - start + 1) ∷ [])
                (omega (arith, h)) (omega arith) (small i) in
            (cs, another rounds i start last chunks (omega (arith, h)) le b e ∙ r, x ∙ new)
      ]

  first_chunk :
      (sb_start n : ℕ)
      → sb_start < length positions
      → chunks_of positions sb_start (suc n)
        ≡ chunk_rounds positions n
            (sb_start + 1)
            (get_or positions sb_start 0)
            (get_or positions sb_start 0)
            []
  unfolding chunks_of
  first_chunk sb_start n h =
      let m : suc n - 1 ≡ n = omega arith in
      rw (at, get_elem?-get_or positions sb_start 0 h, m) refl

  -- A reduced dimension is read in chunks that together are the positions asked for, in their
  -- order, if at least one is asked for and all lie within the positions that are kept.
  pub chunks_of-expand :
      (sb_start sb_size : ℕ)
      → 0 < sb_size
      → sb_start + sb_size ≤ length positions
      → (cs : List (ℕ × ℕ)) × (chunks_of positions sb_start sb_size ≡ ok cs)
        × (expand cs ≡ from_to positions sb_start sb_size)
  unfolding chunks_of from_to upto expand
  chunks_of-expand sb_start zero some_size h = elim some_size [ ]
  chunks_of-expand sb_start (suc n) some_size h =
      let p = get_or positions sb_start 0 in
      let one : p - p + 1 ≡ 1 = omega arith in
      let (cs, r, x) =
        chunk_rounds-expand n (sb_start + 1) p p [] (omega (arith, h)) (omega arith)
          (small sb_start) in
      (
        cs,
        first_chunk sb_start n (omega (arith, h)) ∙ r,
        x ∙ ap (λ (k : ℕ). upto p k ++ from_to positions (sb_start + 1) n) one,
      )

  -- Positions that are not kept as chunks are read one by one, each of them.
  single_chunks-expand :
      (i n : ℕ)
      → i + n ≤ length positions
      → (cs : List (ℕ × ℕ)) × (single_chunks positions i n ≡ ok cs)
        × (expand cs ≡ from_to positions i n)
  unfolding single_chunks expand from_to upto
  single_chunks-expand i zero h = ([], refl, refl)
  single_chunks-expand i (suc n) h =
      let p = get_or positions i 0 in
      let (cs, r, x) = single_chunks-expand (i + 1) n (omega (arith, h)) in
      (
        (p, 1) ∷ cs,
        rw (at, get_elem?-get_or positions i 0 (omega (arith, h)), r) refl,
        ap (λ (xs : List ℕ). p ∷ xs) x,
      )

  -- If no position is asked for, a dimension that is read in chunks is read at one position all the
  -- same, while one that is read position by position is read at none.
  pub chunks_of-nothing :
      (sb_start : ℕ)
      → sb_start < length positions
      → (chunks_of positions sb_start 0 ≡ ok ((get_or positions sb_start 0, 1) ∷ []))
        × (single_chunks positions sb_start 0 ≡ ok [])
  unfolding chunks_of single_chunks chunk_rounds chunk
  chunks_of-nothing sb_start h =
      let p = get_or positions sb_start 0 in
      let one : wadd (wsub p p) 1 ≡ 1 = omega arith in
      (rw (at, get_elem?-get_or positions sb_start 0 h, one) refl, refl)
