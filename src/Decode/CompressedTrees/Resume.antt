-- ===== src/Decode/CompressedTrees/Resume.antt =====
-- `CompressedTreesDecoder` on an input that is cut into slices.
use brutli.Prelude.{ℕ, ◌≡◌, refl, List}
use brutli.Decode.BitReader.{Source, feed}
use brutli.Decode.Outcome.{
  Resumes, Resumed, try_call, ready-Resumes, panicked-Resumes, try_call-Resumes,
}
use brutli.Decode.PrefixCode.{PrefixCode}
use brutli.Decode.TreeGroup as TreeGroup
use brutli.Decode.TreeGroup.{TreeGroupDecoder}
use brutli.Decode.TreeGroup.Resume.{tree_group-Resumes}
use brutli.Decode.CompressedTrees.{
  State, CompressedTreesDecoder, Call, command_alphabet_size, literal_arm, command_arm,
  distance_arm, decode,
}

-- A phase that reads the current group.
group-Resumes :
    (d : CompressedTreesDecoder) (k : List PrefixCode → TreeGroupDecoder → Source → Call)
    → ((g : TreeGroupDecoder) (src : Source)
        → decode (record d { current = g }) src
          ≡ try_call (λ g'. record d { current = g' }) (λ e. e) (TreeGroup.decode g src) k)
    → ((trees : List PrefixCode) (g : TreeGroupDecoder) → Resumes decode (k trees g))
    → Resumes decode (λ src.
      try_call (λ g. record d { current = g }) (λ e. e) (TreeGroup.decode d.current src) k)
group-Resumes d k back next =
    try_call-Resumes decode (λ g. record d { current = g }) (λ e. e) TreeGroup.decode
      (TreeGroup.decode d.current) k (tree_group-Resumes d.current) back next

distance-Resumes :
    (d : CompressedTreesDecoder)
    → Resumes decode (distance_arm (record d { state = State.distance }))
unfolding distance_arm decode
distance-Resumes d =
    group-Resumes (record d { state = State.distance }) _ (λ g src. refl)
      (λ trees g. ready-Resumes decode _ _)

command-Resumes :
    (d : CompressedTreesDecoder) → Resumes decode (command_arm (record d { state = State.command }))
unfolding command_arm decode
command-Resumes d =
    group-Resumes (record d { state = State.command }) _ (λ g src. refl)
      (λ trees g. distance-Resumes (record d {
        command = trees;
        current = TreeGroup.new d.distance_alphabet_size d.distance_tree_count;
      }))

literal-Resumes :
    (d : CompressedTreesDecoder) → Resumes decode (literal_arm (record d { state = State.literal }))
unfolding literal_arm decode
literal-Resumes d =
    group-Resumes (record d { state = State.literal }) _ (λ g src. refl)
      (λ trees g. command-Resumes (record d {
        literal = trees;
        current = TreeGroup.new command_alphabet_size d.command_tree_count;
      }))

-- From any state, a call on a slice and a second call on what follows it come to what one call on both
-- together gives.
pub trees-Resumes :
    (d : CompressedTreesDecoder) (src : Source) (more : List ℕ)
    → Resumed decode more (decode d src) (decode d (feed src more))
unfolding decode
trees-Resumes d src more = by_state d.state src more
  where
    by_state : (s : State) → Resumes decode (decode (record d { state = s }))
    by_state State.literal = literal-Resumes d
    by_state State.command = command-Resumes d
    by_state State.distance = distance-Resumes d
    by_state State.done = panicked-Resumes decode
