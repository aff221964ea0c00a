-- ===== src/Decode/TreeGroup.antt =====
-- src/decode/tree_group.rs: the prefix codes of one category.
pub mod Resume
use brutli.Prelude.{
  ℕ, zero, suc, ◌-◌, Bool, true, false, Option, none, some, List, [], ◌∷◌, ◌++◌, if◌then◌else◌,
  length, Result, ok,
}
use brutli.Decode.BitReader.{Source}
use brutli.Decode.Outcome.{Outcome, ready, panicked, try_call}
use brutli.Decode.PrefixCode.{PrefixCode}
use brutli.Decode.PrefixCodeDecoder as PrefixCodeDecoder
use brutli.Decode.PrefixCodeDecoder.{PrefixCodeDecoderError}

pub record TreeGroupDecoder : Type 0 where
  pub alphabet_size : ℕ
  pub tree_count : ℕ
  pub current : Option PrefixCodeDecoder.PrefixCodeDecoder
  pub trees : List PrefixCode
  pub done : Bool

-- For an alphabet of one symbol and one tree at least, as the `assert!`s say.
abbrev pub new : ℕ → ℕ → TreeGroupDecoder
new alphabet_size tree_count = record {
  alphabet_size = alphabet_size;
  tree_count = tree_count;
  current = none;
  trees = [];
  done = false;
}

abbrev pub Call : Type 0
Call = Outcome TreeGroupDecoder (Result PrefixCodeDecoderError (List PrefixCode))

-- `self.current.get_or_insert_with(|| PrefixCodeDecoder::new(self.alphabet_size))`
abbrev pub current_or :
    ℕ → Option PrefixCodeDecoder.PrefixCodeDecoder → PrefixCodeDecoder.PrefixCodeDecoder
current_or alphabet_size none = PrefixCodeDecoder.new alphabet_size
current_or alphabet_size (some decoder) = decoder

-- The `while`, by the trees that are left: each round pushes one.
unfoldable pub trees_loop : ℕ → TreeGroupDecoder → Source → Call
trees_loop zero d src = ready (ok d.trees) (record d { done = true; trees = [] }) src
trees_loop (suc left) d src =
    try_call (λ s. record d { current = some s }) (λ e. e)
      (PrefixCodeDecoder.decode (current_or d.alphabet_size d.current) src)
      (λ tree s. trees_loop left (record d { trees = d.trees ++ (tree ∷ []); current = none }))

unfoldable pub decode : TreeGroupDecoder → Source → Call
decode d src = if d.done then panicked else trees_loop (d.tree_count - length d.trees) d src
