-- ===== src/Schemes/Templates.antt =====
-- `processStateTemplates` of src/CollectionSchemeManager.cpp: a versioned diff removes and adds
-- state templates.
use aws_iot_fleetwise_edge.Prelude.{
  ℕ, ◌≡◌, refl, arith, Bool, true, false, not, ◌||◌, List, [], ◌∷◌, Option, none, some,
  if◌then◌else◌, ltb, ◌==◌, max, lookup, put, remove, lookup-put, lookup-remove, Option-cases, inl,
  inr,
}
use aws_iot_fleetwise_edge.Schemes.Manager.{
  StateTemplate, StateTemplatesDiff, CollectionSchemeManager, tell, store_state_template_list,
}

abbrev is_known : Option StateTemplate → Bool
is_known none = false
is_known (some t) = true

-- The loop over `stateTemplatesToRemove`: whether one was erased, and the map.
unfoldable pub remove_templates :
    List ℕ → List (ℕ × StateTemplate) → Bool × List (ℕ × StateTemplate)
remove_templates [] ts = (false, ts)
remove_templates (k ∷ ks) ts =
    let rest = remove_templates ks (remove k ts) in (is_known (lookup k ts) || rest.0, rest.1)

-- The loop over `stateTemplatesToAdd`: a known template stays as it is.
unfoldable pub add_templates :
    List StateTemplate → List (ℕ × StateTemplate) → Bool × List (ℕ × StateTemplate)
add_templates [] ts = (false, ts)
add_templates (t ∷ new) ts =
    let known = is_known (lookup t.id ts) in
    let rest = add_templates new (if known then ts else put t.id t ts) in
    (not known || rest.0, rest.1)

-- Both loops.
unfoldable pub apply_diff :
    StateTemplatesDiff → List (ℕ × StateTemplate) → Bool × List (ℕ × StateTemplate)
apply_diff d ts =
    let removed = remove_templates d.to_remove ts in
    let added = add_templates d.to_add removed.1 in (removed.0 || added.0, added.1)

-- `processStateTemplates` of a diff.
unfoldable pub process_diff :
    StateTemplatesDiff → CollectionSchemeManager → Bool × CollectionSchemeManager
process_diff d m =
    let r = apply_diff d m.state_templates in
    let applied : CollectionSchemeManager = record m {
      last_state_templates_diff_version = d.version;
      state_templates = r.1;
    } in
    if ltb d.version m.last_state_templates_diff_version
    then (false, m)
    else (r.0, if r.0 then tell store_state_template_list applied else applied)

-- `processStateTemplates`
unfoldable pub process_state_templates : CollectionSchemeManager → Bool × CollectionSchemeManager
process_state_templates m = elim m.last_known_state_ingestion [
  | none ↦ (false, m)
  | some l ↦ elim l.diff [
    | none ↦ (false, m)
    | some d ↦ let r = process_diff d m in if not l.builds then (false, m) else r
  ]
]

-- What a diff says of one identifier: it is removed, and the first new template with it is added
-- where none is left.
abbrev is_removed : ℕ → List ℕ → Bool
is_removed k [] = false
is_removed k (j ∷ js) = j == k || is_removed k js

abbrev find_new : ℕ → List StateTemplate → Option StateTemplate
find_new k [] = none
find_new k (t ∷ ts) = if t.id == k then some t else find_new k ts

abbrev or_new : Option StateTemplate → Option StateTemplate → Option StateTemplate
or_new (some t) new = some t
or_new none new = new

abbrev pub template_after : StateTemplatesDiff → ℕ → Option StateTemplate → Option StateTemplate
template_after d k before =
    or_new (if is_removed k d.to_remove then none else before) (find_new k d.to_add)

lookup-remove_templates :
    (k : ℕ) (ks : List ℕ) (ts : List (ℕ × StateTemplate))
    → lookup k (remove_templates ks ts).1 ≡ (if is_removed k ks then none else lookup k ts)
unfolding remove_templates
lookup-remove_templates k [] ts = refl
lookup-remove_templates k (j ∷ js) ts =
    ground (arith, lookup-remove_templates k js (remove j ts), lookup-remove j k ts)

lookup-add_templates :
    (k : ℕ) (new : List StateTemplate) (ts : List (ℕ × StateTemplate))
    → lookup k (add_templates new ts).1 ≡ or_new (lookup k ts) (find_new k new)
unfolding add_templates
lookup-add_templates k [] ts = elim (Option-cases (lookup k ts)) [
  | inl e ↦ rw e refl
  | inr (t, e) ↦ rw e refl
]
lookup-add_templates k (t ∷ new) ts = elim (Option-cases (lookup t.id ts)) [
  | inl e ↦
      rw (e, add_templates)
        (ground (arith, e, lookup-add_templates k new (put t.id t ts), lookup-put t.id k t ts))
  | inr (u, e) ↦ rw (e, add_templates) (ground (arith, e, lookup-add_templates k new ts))
]

-- A diff leaves under each identifier the template that is not removed and was there, or else the
-- first new one; adding does not replace a template that is there.
pub apply_diff-each :
    (d : StateTemplatesDiff) (ts : List (ℕ × StateTemplate)) (k : ℕ)
    → lookup k (apply_diff d ts).1 ≡ template_after d k (lookup k ts)
unfolding apply_diff
apply_diff-each d ts k =
    rw
      (
        lookup-add_templates k d.to_add (remove_templates d.to_remove ts).1,
        lookup-remove_templates k d.to_remove ts,
      )
      refl

-- Processing a diff leaves the later version of the two. A diff of an older version than the
-- current one leaves all templates; any other leaves under each identifier what `template_after`
-- says.
pub process_diff-each :
    (d : StateTemplatesDiff) (m : CollectionSchemeManager) (k : ℕ)
    → let m' = (process_diff d m).1 in
      (m'.last_state_templates_diff_version ≡ max d.version m.last_state_templates_diff_version)
      × (lookup k m'.state_templates ≡ (
          if ltb d.version m.last_state_templates_diff_version
          then lookup k m.state_templates
          else template_after d k (lookup k m.state_templates)))
unfolding process_diff
process_diff-each d m k = (ground arith, ground (arith, apply_diff-each d m.state_templates k))

remove_templates-unchanged :
    (k : ℕ) (ks : List ℕ) (ts : List (ℕ × StateTemplate))
    → (remove_templates ks ts).0 ≡ false
    → lookup k (remove_templates ks ts).1 ≡ lookup k ts
unfolding remove_templates
remove_templates-unchanged k [] ts h = refl
remove_templates-unchanged k (j ∷ js) ts h =
    ground (arith, h, remove_templates-unchanged k js (remove j ts), lookup-remove j k ts)

add_templates-unchanged :
    (k : ℕ) (new : List StateTemplate) (ts : List (ℕ × StateTemplate))
    → (add_templates new ts).0 ≡ false
    → lookup k (add_templates new ts).1 ≡ lookup k ts
unfolding add_templates
add_templates-unchanged k [] ts h = refl
add_templates-unchanged k (t ∷ new) ts h = ground (arith, h, add_templates-unchanged k new ts)

-- A diff whose processing returns false changes no template, and nothing is stored.
process_diff-unchanged :
    (d : StateTemplatesDiff) (m : CollectionSchemeManager) (k : ℕ)
    → (process_diff d m).0 ≡ false
    → (lookup k (process_diff d m).1.state_templates ≡ lookup k m.state_templates)
      × ((process_diff d m).1.calls ≡ m.calls)
unfolding process_diff apply_diff
process_diff-unchanged d m k h =
    let removed = remove_templates d.to_remove m.state_templates in
    (
      ground (
        arith,
        h,
        remove_templates-unchanged k d.to_remove m.state_templates,
        add_templates-unchanged k d.to_add removed.1,
      ),
      ground (arith, h),
    )
