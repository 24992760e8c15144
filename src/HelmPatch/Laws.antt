-- ===== src/HelmPatch/Laws.antt =====
-- What the plugin makes of the files of the chart.
use ocular.Prelude.{
  String, true, Bool-cases, inl, inr, concat, Option, none, some, List, [], ◌∷◌, ◌≡◌, ◌≢◌, refl,
  sym, ap, ◌∙◌, subst, arith, All, eq_iff,
}
use ocular.Prelude.Dict.{Dict, lookup, or_else, lookup-insert}
use ocular.Prelude.FilePath.{join}
use ocular.Kube.Errors.{Error, Result, ok, err}
use ocular.HelmPatch.Texts.{
  Replacement, TextPadding, chart_path, manager_path, configmap_path, replacements, padding,
  paddings,
}
use ocular.HelmPatch.{
  PluginRequest, PluginResponse, Text, no_response, contents, get_file_contents, apply_each,
  apply_padding, apply_replacement, bind_result, edited, edit_files, unless_error, put,
  apply_replacements, apply_paddings, patch_helm_chart, chart_content, with_chart, after_paddings,
  after_replacements,
}

module _ {A : Type 0} (edit : A → String → Result String) (output_dir : String)
    (req : PluginRequest) where
  abbrev at : String → String
  at path = join output_dir path

  lookup-put :
      (path key content : String) (resp : PluginResponse)
      → path ≢ key
      → lookup key (put edit output_dir req path content resp).universe ≡ lookup key resp.universe
  lookup-put path key content resp h =
      lookup-insert path key content resp.universe ∙ ground (arith, eq_iff path key)

  unless_error-keeps :
      (key : String) (resp : PluginResponse) (r : Result String)
      (k : String → PluginResponse × Option Error)
      → ((c : String) → lookup key (k c).0.universe ≡ lookup key resp.universe)
      → lookup key (unless_error resp r k).0.universe ≡ lookup key resp.universe
  unless_error-keeps key resp (err e) k h = refl
  unless_error-keeps key resp (ok c) k h = h c

  -- a path that is not in the table keeps its content
  edit_files-keeps :
      (files : Dict A) (resp : PluginResponse) (key : String)
      → All (λ (f : String × A). at f.0 ≢ key) files
      → lookup key (edit_files edit output_dir req files resp).0.universe ≡ lookup key resp.universe
  unfolding edit_files
  edit_files-keeps [] resp key h = refl
  edit_files-keeps ((path, a) ∷ files) resp key h = unless_error-keeps key resp _ _ (λ c.
      edit_files-keeps files (put edit output_dir req (at path) c resp) key h.1
      ∙ lookup-put (at path) key c resp h.0)

  -- what became of one file of the table
  record Edited (resp final : PluginResponse) (f : String × A) : Type 0 where
    content : String
    changed : String
    was : get_file_contents (at f.0) req resp ≡ ok content
    edits : edit f.1 content ≡ ok changed
    is : lookup (at f.0) final.universe ≡ some changed

  unless_error_ok :
      (resp : PluginResponse) (r : Result String) (k : String → PluginResponse × Option Error)
      → (unless_error resp r k).1 ≡ none
      → (c : String) × (r ≡ ok c) × ((k c).1 ≡ none) × (unless_error resp r k ≡ k c)
  unless_error_ok resp (err e) k h = cc h
  unless_error_ok resp (ok c) k h = (c, refl, h, refl)

  edited_ok :
      (r : Result String) (a : A) (changed : String)
      → edited edit output_dir req r a ≡ ok changed
      → (content : String) × (r ≡ ok content) × (edit a content ≡ ok changed)
  edited_ok (err e) a changed h = cc h
  edited_ok (ok content) a changed h = (content, refl, h)

  abbrev Distinct : Dict A → Type 0
  Distinct [] = Unit
  Distinct (f ∷ fs) = All (λ (g : String × A). at g.0 ≢ at f.0) fs × Distinct fs

  Edited-put :
      (path c : String) (resp final : PluginResponse) (fs : Dict A)
      → All (λ (g : String × A). at g.0 ≢ at path) fs
      → All (Edited (put edit output_dir req (at path) c resp) final) fs
      → All (Edited resp final) fs
  unfolding get_file_contents
  Edited-put path c resp final [] d h = tt
  Edited-put path c resp final (f ∷ fs) d h = (
    record {
      content = h.0.content;
      changed = h.0.changed;
      was =
          subst (λ o. contents (or_else o (lookup (at f.0) req.universe)) ≡ ok h.0.content)
            (lookup-put (at path) (at f.0) c resp (λ e. d.0 (sym e))) h.0.was;
      edits = h.0.edits;
      is = h.0.is;
    },
    Edited-put path c resp final fs d.1 h.1,
  )

  edit_files-Edited :
      (files : Dict A) (resp : PluginResponse)
      → Distinct files
      → (edit_files edit output_dir req files resp).1 ≡ none
      → All (Edited resp (edit_files edit output_dir req files resp).0) files
  unfolding edit_files
  edit_files-Edited [] resp d h = tt
  edit_files-Edited ((path, a) ∷ files) resp d h =
      let (c, e, rest, same) = unless_error_ok resp _ _ h in
      let (content, was, edits) = edited_ok _ a c e in
      let next : PluginResponse = put edit output_dir req (at path) c resp in
      let final : PluginResponse = (edit_files edit output_dir req files next).0 in
      subst (λ r. All (Edited resp r.0) ((path, a) ∷ files)) (sym same)
        (
          record {
            content = content;
            changed = c;
            was = was;
            edits = edits;
            is =
                edit_files-keeps files next (at path) d.0
                ∙ lookup-insert (at path) (at path) c resp.universe
                ∙ ground (arith, eq_iff (at path) (at path));
          },
          Edited-put path c resp final files d.0 (edit_files-Edited files next d.1 rest),
        )

contents_ok : (o : Option String) (c : String) → contents o ≡ ok c → o ≡ some c
contents_ok none c h = cc h
contents_ok (some d) c h = cc h

ok-inj : {a b : String} → ok a ≡ ok b → a ≡ b
ok-inj e = cc e

some-inj : {a b : String} → some a ≡ some b → a ≡ b
some-inj e = cc e

-- each pattern in turn is found in what the ones before it left, and replaced there; `was` is the
-- text before the first and `final` the one after the last
abbrev pub ReplacedInTurn : Text → List Replacement → String → String → Type 0
ReplacedInTurn t [] was final = final ≡ was
ReplacedInTurn t (r ∷ rs) was final =
    (t.match_string r.pattern was ≡ true)
    × ReplacedInTurn t rs (t.replace_all_string r.pattern was r.replacement) final

bind_result_ok :
    (r : Result String) (k : String → Result String) (d : String)
    → bind_result r k ≡ ok d
    → (c : String) × (r ≡ ok c) × (k c ≡ ok d)
bind_result_ok (err e) k d h = absurd (cc)
bind_result_ok (ok c) k d h = (c, refl, h)

apply_replacement_ok :
    (t : Text) (r : Replacement) (c d : String)
    → apply_replacement t r c ≡ ok d
    → (t.match_string r.pattern c ≡ true) × (t.replace_all_string r.pattern c r.replacement ≡ d)
unfolding apply_replacement
apply_replacement_ok t r c d h = elim (Bool-cases (t.match_string r.pattern c)) [
  | inl e ↦ (e, ground arith)
  | inr e ↦ absurd (ground arith)
]

apply_each-ReplacedInTurn :
    (t : Text) (rs : List Replacement) (c d : String)
    → apply_each t rs c ≡ ok d
    → ReplacedInTurn t rs c d
unfolding apply_each
apply_each-ReplacedInTurn t [] c d h = sym (ok-inj h)
apply_each-ReplacedInTurn t (r ∷ rs) c d h =
    let (changed, one, rest) = bind_result_ok (apply_replacement t r c) (apply_each t rs) d h in
    let (found, is) = apply_replacement_ok t r c changed one in
    (
      found,
      subst (λ x. ReplacedInTurn t rs x d) (sym is) (apply_each-ReplacedInTurn t rs changed d rest),
    )

module _ (t : Text) (output_dir : String) (req : PluginRequest) where
  abbrev path_in : String → String
  path_in path = join output_dir path

  -- a file of the chart in the request, with its replacements made and padded
  pub record Patched (final : PluginResponse) (f : String × List Replacement) : Type 0 where
    pub content : String
    pub changed : String
    pub was : lookup (join output_dir f.0) req.universe ≡ some content
    pub edits : ReplacedInTurn t f.1 content changed
    pub is :
        lookup (join output_dir f.0) final.universe
        ≡ some (concat padding.prefix (concat changed padding.suffix))

  abbrev pad : TextPadding → String → Result String
  pad p content = ok (apply_padding p content)

  Edited-Patched :
      (path : String) (rs : List Replacement) (second third : PluginResponse)
      → Edited (apply_each t) output_dir req (no_response req) second (path, rs)
      → Edited pad output_dir req second third (path, padding)
      → Patched third (path, rs)
  unfolding get_file_contents lookup apply_padding
  Edited-Patched path rs second third one two = record {
    content = one.content;
    changed = one.changed;
    was = contents_ok _ one.content one.was;
    edits = apply_each-ReplacedInTurn t rs one.content one.changed one.edits;
    is =
        two.is
        ∙ ap some (sym (ok-inj two.edits))
        ∙ ap (λ c. some (apply_padding padding c))
            (some-inj (
              sym (contents_ok _ two.content two.was)
              ∙ ap (λ o. or_else o (lookup (path_in path) req.universe)) one.is));
  }

  with_chart-keeps :
      (r : Result String) (resp : PluginResponse) (f : String × List Replacement)
      → (with_chart t output_dir req r resp).1 ≡ none
      → join output_dir chart_path ≢ path_in f.0
      → Patched resp f
      → Patched (with_chart t output_dir req r resp).0 f
  with_chart-keeps (err e) resp f h d p = cc h
  with_chart-keeps (ok chart) resp f h d p = record {
    content = p.content;
    changed = p.changed;
    was = p.was;
    edits = p.edits;
    is =
        lookup-insert (join output_dir chart_path) (path_in f.0) chart resp.universe
        ∙ ground (arith, eq_iff (join output_dir chart_path) (path_in f.0), p.is);
  }

  module _ (d : join output_dir configmap_path ≢ join output_dir manager_path)
      (dm : join output_dir chart_path ≢ join output_dir manager_path)
      (dc : join output_dir chart_path ≢ join output_dir configmap_path) where
    after_paddings-Patched :
        (q : PluginResponse × Option Error)
        → (q.1 ≡ none → All (Patched q.0) replacements)
        → (after_paddings t output_dir req q).1 ≡ none
        → All (Patched (after_paddings t output_dir req q).0) replacements
    after_paddings-Patched (resp, none) all h =
        let (m, (c, u)) = all refl in
        let chart = chart_content t output_dir req in
        (with_chart-keeps chart resp _ h dm m, (with_chart-keeps chart resp _ h dc c, tt))
    after_paddings-Patched (resp, some e) all h = cc h

    after_replacements-Patched :
        (q : PluginResponse × Option Error)
        → (q.1 ≡ none
            → All (Edited (apply_each t) output_dir req (no_response req) q.0) replacements)
        → (after_replacements t output_dir req q).1 ≡ none
        → All (Patched (after_replacements t output_dir req q).0) replacements
    unfolding apply_paddings
    after_replacements-Patched (resp, none) one h =
        after_paddings-Patched (apply_paddings t output_dir req resp)
          (λ e.
            let (m, (c, u)) = one refl in
            let (n, (k, v)) =
              edit_files-Edited pad output_dir req paddings resp ((d, tt), (tt, tt)) e in
            (
              Edited-Patched manager_path _ resp _ m n,
              (Edited-Patched configmap_path _ resp _ c k, tt),
            ))
          h
    after_replacements-Patched (resp, some e) one h = cc h

    -- If the plugin returns no error, and the paths of the three files differ, then each of the two
    -- files was in the request; each pattern of its replacements, in order, was found in what the
    -- replacements before it had left; and the response has the file with all these replacements
    -- made and the padding around it.
    pub patch_helm_chart-Patched :
        (patch_helm_chart t output_dir req).1 ≡ none
        → All (Patched (patch_helm_chart t output_dir req).0) replacements
    unfolding patch_helm_chart apply_replacements
    patch_helm_chart-Patched h =
        after_replacements-Patched (apply_replacements t output_dir req (no_response req))
          (edit_files-Edited (apply_each t) output_dir req replacements (no_response req)
            ((d, tt), (tt, tt)))
          h
