-- ===== src/Decode/TreeGroup/Resume.antt =====
-- `TreeGroupDecoder` on an input that is cut into slices.
use brutli.Prelude.{
  ℕ, zero, suc, ◌-◌, ◌≡◌, refl, ap, arith, Bool, true, false, none, some, [], ◌∷◌, ◌++◌, length,
  length-append,
}
use brutli.Decode.Outcome.{Resumes, ready-Resumes, panicked-Resumes, try_call-Resumes}
use brutli.Decode.PrefixCodeDecoder as PrefixCodeDecoder
use brutli.Decode.PrefixCodeDecoder.Resume.{prefix_code_decoder-Resumes}
use brutli.Decode.TreeGroup.{TreeGroupDecoder, current_or, trees_loop, decode}

trees_loop-Resumes :
    (left : ℕ) (d : TreeGroupDecoder)
    → d.tree_count - length d.trees ≡ left
    → Resumes decode (trees_loop left (record d { done = false }))
unfolding trees_loop decode
trees_loop-Resumes zero d h = ready-Resumes decode _ _
trees_loop-Resumes (suc left) d h =
    try_call-Resumes decode (λ s. record d { done = false; current = some s }) (λ e. e)
      PrefixCodeDecoder.decode (PrefixCodeDecoder.decode (current_or d.alphabet_size d.current)) _
      (prefix_code_decoder-Resumes (current_or d.alphabet_size d.current))
      (λ s src. ap (λ r. trees_loop r (record d { done = false; current = some s }) src) h)
      (λ tree s.
        let grown = length-append d.trees (tree ∷ []) in
        trees_loop-Resumes left (record d { trees = d.trees ++ (tree ∷ []); current = none })
          (omega arith))

-- From any state, a call on a slice and a second call on what follows it come to what one call on both
-- together gives.
pub tree_group-Resumes : (d : TreeGroupDecoder) → Resumes decode (decode d)
unfolding decode
tree_group-Resumes d = by_done d.done
  where
    by_done : (b : Bool) → Resumes decode (decode (record d { done = b }))
    by_done true = panicked-Resumes decode
    by_done false = trees_loop-Resumes (d.tree_count - length d.trees) d refl
