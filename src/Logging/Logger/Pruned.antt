-- ===== src/Logging/Logger/Pruned.antt =====
-- What a rotation keeps of the rotated files.
use awgsocks.Base.{
  ◌⊎◌, zero, suc, take, ltb, All-imp, ◌&&◌, ℕ, ◌-◌, ◌≡◌, ◌≤◌, refl, sym, ap, ◌∙◌, Bool, true, false,
  List, [], ◌∷◌, some, Bytes, length, leb, equal, equal_self, equal_iff, arith, if-case,
  if◌then◌else◌, Bool-cases, inl, inr, subst, All,
}
use awgsocks.Logging.Logger.Members.{
  IsDistinct, member-other_than, member-take-sort, All-member, All-members, length-other_than_least,
}
use awgsocks.Logging.Logger.{
  at_most, sort, File, Logger, World, without, content_of, delete_each, doomed, prune,
  rotated_names,
}
use awgsocks.Logging.Logger.Order.{
  member, other_than, other_than-nil, other_than-cons, Behind, taken_newest, taken_few,
}

rotated_names-without :
    (base ext d : Bytes) (fs : List File)
    → rotated_names base ext (without d fs) ≡ other_than (d ∷ []) (rotated_names base ext fs)
unfolding rotated_names
rotated_names-without base ext d [] = refl
rotated_names-without base ext d (f ∷ fs) = ground (arith, rotated_names-without base ext d fs)

rotated_names-delete_each :
    (base ext : Bytes) (removes : Bytes → Bool) (ds : List Bytes) (fs : List File)
    → ((x : Bytes) → removes x ≡ true)
    → rotated_names base ext (delete_each removes ds fs) ≡ other_than ds (rotated_names base ext fs)
unfolding delete_each
rotated_names-delete_each base ext removes [] fs h =
    sym (other_than-nil (rotated_names base ext fs))
rotated_names-delete_each base ext removes (d ∷ ds) fs h = rw (h d) (
    rotated_names-delete_each base ext removes ds (without d fs) h
    ∙ ap (other_than ds) (rotated_names-without base ext d fs)
    ∙ other_than-cons d ds (rotated_names base ext fs))

content_of-without_other :
    (name d : Bytes) (fs : List File)
    → equal name d ≡ false
    → content_of name (without d fs) ≡ content_of name fs
content_of-without_other name d [] h = refl
content_of-without_other name d (f ∷ fs) h = elim (Bool-cases (equal f.name d)) [
  | inr e ↦ rw e (
      ap (λ o. if equal f.name name then some f.content else o)
        (content_of-without_other name d fs h))
  | inl e ↦
      let other : equal f.name name ≡ false =
        ground (arith, e, h, equal_iff f.name d, equal_iff f.name name, equal_self name) in
      rw e (rw other (content_of-without_other name d fs h))
]

content_of-delete_each_other :
    (name : Bytes) (removes : Bytes → Bool) (ds : List Bytes) (fs : List File)
    → member name ds ≡ false
    → content_of name (delete_each removes ds fs) ≡ content_of name fs
unfolding delete_each
content_of-delete_each_other name removes [] fs h = refl
content_of-delete_each_other name removes (d ∷ ds) fs h =
    content_of-delete_each_other name removes ds _ (ground (arith, h))
    ∙ if-case (λ x. content_of name x ≡ content_of name fs) (removes d) _ _
        (λ e. content_of-without_other name d fs (ground (arith, h))) (λ e. refl)

All-Behind_nothing : (xs : List Bytes) → All (Behind []) xs
All-Behind_nothing [] = tt
All-Behind_nothing (x ∷ xs) = (tt, All-Behind_nothing xs)

-- What is left, and what is gone, of names that are pruned to `max_files`.
record Kept (max_files : ℕ) (names kept : List Bytes) : Type 0 where
  few : length kept ≡ (if ltb max_files (length names) then max_files else length names)
  newest : All (Behind (other_than kept names)) kept

length-take : (n : ℕ) (xs : List Bytes) → length (take n xs) ≤ n
length-take zero [] = omega arith
length-take zero (x ∷ xs) = omega arith
length-take (suc n) [] = omega arith
length-take (suc n) (x ∷ xs) = omega (arith, length-take n xs)

-- The names that are gone are those that were struck off.
gone_lem :
    (x : Bytes) (ds names : List Bytes)
    → member x (other_than (other_than ds names) names) ≡ (member x ds && member x names)
gone_lem x ds names =
    ground (arith, member-other_than x (other_than ds names) names, member-other_than x ds names)

Behind-gone :
    (ds names : List Bytes)
    → All (Behind ds) (other_than ds names)
    → All (Behind (other_than (other_than ds names) names)) (other_than ds names)
Behind-gone ds names h =
    All-imp (Behind ds) (Behind (other_than (other_than ds names) names)) (other_than ds names)
      (λ x behind.
        All-members (λ d. at_most d x ≡ true) (other_than (other_than ds names) names)
          (λ d is_gone.
            All-member (λ d. at_most d x ≡ true) d ds behind
              (ground (arith, is_gone, gone_lem d ds names))))
      h

doomed-Kept :
    (max_files : ℕ) (names : List Bytes)
    → IsDistinct names
    → Kept max_files names (other_than (doomed max_files names) names)
unfolding doomed
doomed-Kept max_files names distinct =
    if-case (λ ds. Kept max_files names (other_than ds names)) (leb (length names) max_files) _ _
      (λ e. record {
        few = ground (arith, e, ap length (other_than-nil names));
        newest = Behind-gone [] names (All-Behind_nothing (other_than [] names));
      })
      (λ e.
        let ds = take (length names - max_files) (sort names) in
        record {
          few = ground (
            arith,
            e,
            taken_few (length names - max_files) names,
            length-other_than_least ds names distinct,
            length-take (length names - max_files) (sort names),
          );
          newest = Behind-gone ds names (taken_newest (length names - max_files) names);
        })

doomed-names :
    (x : Bytes) (max_files : ℕ) (names : List Bytes)
    → member x (doomed max_files names) ≡ true
    → member x names ≡ true
unfolding doomed
doomed-names x max_files names =
    if-case (λ ds. member x ds ≡ true → member x names ≡ true) (leb (length names) max_files) _ _
      (λ e h. cc h) (λ e h. member-take-sort x (length names - max_files) names h)

not_doomed :
    (x : Bytes) (max_files : ℕ) (names : List Bytes)
    → member x (other_than (other_than (doomed max_files names) names) names) ≡ false
    → member x (doomed max_files names) ≡ false
not_doomed x max_files names h =
    ground (arith, h, gone_lem x (doomed max_files names) names, doomed-names x max_files names)

-- What pruning leaves of a directory: of the rotated files as many as there were, but at most `max_files`;
-- all of them are named behind each that is gone; and every file that is not one of those gone is as it was.
pub record IsPruned (l m : Logger) : Type 0 where
  pub few : length (rotated_names l.base l.ext m.files) ≡ (
      if ltb l.max_files (length (rotated_names l.base l.ext l.files))
      then l.max_files
      else length (rotated_names l.base l.ext l.files))
  pub newest :
      let kept = rotated_names l.base l.ext m.files in
      All (Behind (other_than kept (rotated_names l.base l.ext l.files))) kept
  pub others :
      (name : Bytes)
      → let names = rotated_names l.base l.ext l.files in
        (member name (other_than (rotated_names l.base l.ext m.files) names) ≡ true)
        ⊎ (content_of name m.files ≡ content_of name l.files)

-- Where the directory can be read and lets the files be deleted, and no two rotated files have one name,
-- pruning keeps as many rotated files as there are, but at most `max_files`: those that are named behind
-- every one that is gone. Every other file is as it was.
pub prune-keeps_newest :
    (w : World) (l : Logger)
    → w.lists ≡ true
    → ((name : Bytes) → w.removes name ≡ true)
    → IsDistinct (rotated_names l.base l.ext l.files)
    → IsPruned l (prune w l)
unfolding prune
prune-keeps_newest w l lists removes distinct =
    let names = rotated_names l.base l.ext l.files in
    let left =
      rotated_names-delete_each l.base l.ext w.removes (doomed l.max_files names) l.files removes in
    let kept = doomed-Kept l.max_files names distinct in
    if-case (IsPruned l) w.lists
      (record l { files = delete_each w.removes (doomed l.max_files names) l.files }) l
      (λ e. record {
        few = rw left kept.few;
        newest = rw left kept.newest;
        others = λ name.
            elim (Bool-cases (
              member name (
                other_than
                  (rotated_names l.base l.ext
                    (delete_each w.removes (doomed l.max_files names) l.files))
                  names))) [
                    | inl h ↦ inl h
                    | inr h ↦ inr (
                        content_of-delete_each_other name w.removes (doomed l.max_files names)
                          l.files
                          (not_doomed name l.max_files names
                            (subst (λ k. member name (other_than k names) ≡ false) left h)))
                  ];
      })
      (λ e. cc (lists, e))
