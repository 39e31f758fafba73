-- ===== src/UpdateEntity/Laws.antt =====
-- The release note text survives markdown, and the entity agrees with the updates it is made from.
use mathlib.Core.List.{append-nil}
use proxmoxve_integration.Prelude.{
  ℕ, ◌+◌, ◌≡◌, refl, sym, ◌∙◌, ap, List, [], ◌∷◌, ◌++◌, Bool, true, false, not, Option, none, some,
  ◌==◌, if◌then◌else◌, ◌&&◌, ◌||◌, leb, list_eq, nat_eq, arith, length, contains, is_empty,
}
use proxmoxve_integration.Prelude.Text.{Text, text, Lacks, starts_with, join_by, starts_with-append}
use proxmoxve_integration.Json.{Value, Values}
use proxmoxve_integration.Updates.{Package, ProxmoxUpdateData, count_proxmox, parse_updates}
use proxmoxve_integration.Updates.Laws.{is_some}
use proxmoxve_integration.UpdateEntity.{
  known, own_packages, update_version, version_is_newer, under, update_info, release_summary,
  summary_of, or_text, release_notes,
}

abbrev shown_with : ℕ → Option Text → Option Text
shown_with c none = none
shown_with c (some t) = some (c ∷ t)

-- The characters that may begin inline markup in CommonMark, with the strikethrough of GitHub's dialect: an
-- escape, a code span, emphasis, a link, a strikethrough, an HTML tag or autolink, and an entity.
abbrev pub opens_markup : ℕ → Bool
opens_markup c =
    c == 92
    || (c == 96
        || (c == 42 || (c == 95 || (c == 91 || (c == 93 || (c == 126 || (c == 60 || c == 38)))))))

-- The ASCII punctuation, which a backslash makes literal.
abbrev pub is_punctuation : ℕ → Bool
is_punctuation c =
    (leb 33 c && leb c 47)
    || ((leb 58 c && leb c 64) || ((leb 91 c && leb c 96) || (leb 123 c && leb c 126)))

-- What markdown shows of a text; `none` where something in it may be read as markup. `true` says that a
-- backslash came before, which stands for itself in front of what is no punctuation.
abbrev pub shown_after : Bool → Text → Option Text
shown_after true [] = some (92 ∷ [])
shown_after false [] = some []
shown_after true (c ∷ s) =
    let kept = shown_with c (shown_after false s) in
    if is_punctuation c then kept else shown_with 92 kept
shown_after false (c ∷ s) =
    let escaped = shown_after true s in
    let kept = shown_with c (shown_after false s) in
    if c == 92 then escaped else if opens_markup c then none else kept

length-own : (ps : List Package) → length (own_packages ps) ≡ count_proxmox ps
length-own [] = refl
length-own (p ∷ ps) = ground (arith, length-own ps)

contains-middle : (s t : Text) (c : ℕ) → contains (s ++ c ∷ t) c ≡ true
contains-middle [] t c = ground arith
contains-middle (d ∷ s) t c = ground (arith, contains-middle s t c)

differs :
    (installed other : Text)
    → Lacks b'-' installed
    → contains other b'-' ≡ true
    → (other == installed) ≡ false
differs installed other lacks holds = ground (arith, lacks, holds)

differs-suffix :
    (installed s t : Text) → Lacks b'-' installed → ((s ++ b'-' ∷ t) == installed) ≡ false
differs-suffix installed s t lacks =
    differs installed (s ++ b'-' ∷ t) lacks (contains-middle s t b'-')

-- The id that Home Assistant compares is newer than an installed version without a hyphen exactly when
-- packages are pending.
pub version_is_newer-update_version :
    {V : Type 0} (zero_version : V) (version? : Text → Option V) (above : V → V → Bool)
    (installed : Text) (packages : List Package)
    → Lacks b'-' installed
    → version_is_newer
        (update_version zero_version version? above installed packages).latest_version_id
        installed
      ≡ not (is_empty packages)
unfolding version_is_newer update_version
version_is_newer-update_version zero_version version? above installed [] lacks = ground arith
version_is_newer-update_version zero_version version? above installed (p ∷ ps) lacks =
    ap not (differs-suffix installed _ _ lacks)

length-under_own : (ps : List Package) → length (under true ps) ≡ length (own_packages ps)
length-under_own [] = refl
length-under_own (p ∷ ps) = ground (arith, length-under_own ps)

length-under : (ps : List Package) → length (own_packages ps) + length (under false ps) ≡ length ps
length-under [] = omega arith
length-under (p ∷ ps) = ground (arith, length-under ps)

-- The update entity counts what the parsed updates count, whichever release is installed; the two
-- headings of the release notes hold so many packages, and together each of them.
update_version-parse_updates :
    {V : Type 0} (zero_version : V) (version? : Text → Option V) (above : V → V → Bool)
    (installed : Text) (repr : Value → Text) (status : Values) (node : Text)
    → let u = parse_updates repr status node in
      let i = update_version zero_version version? above installed u.packages in
      (i.total_updates ≡ u.total)
      × (i.proxmox_updates ≡ u.proxmox_updates)
      × (i.other_updates ≡ u.other_updates)
      × (length (under true u.packages) ≡ u.proxmox_updates)
      × (length (under false u.packages) ≡ u.other_updates)
unfolding update_version parse_updates
update_version-parse_updates zero_version version? above installed repr status node =
    let ps = (parse_updates repr status node).packages in
    (
      refl,
      length-own ps,
      omega (arith, length-own ps),
      omega (arith, length-own ps, length-under_own ps),
      omega (arith, length-own ps, length-under ps),
    )

abbrev pub or_empty : Option Text → Text
or_empty none = []
or_empty (some t) = t

starts_with-join_by : (sep s : Text) (ps : List Text) → starts_with s (join_by sep (s ∷ ps)) ≡ true
unfolding join_by
starts_with-join_by sep s [] = ap (starts_with s) (sym (append-nil s)) ∙ starts_with-append s []
starts_with-join_by sep s (p ∷ ps) = starts_with-append s (sep ++ join_by sep (p ∷ ps))

release_notes_lem :
    (summary : Option Text) (u : ProxmoxUpdateData)
    → (is_some (release_notes summary (known u)) ≡ is_some summary)
      × (starts_with (or_empty summary) (or_empty (release_notes summary (known u))) ≡ true)
unfolding release_notes starts_with
release_notes_lem none u = (refl, refl)
release_notes_lem (some s) u = (refl, starts_with-join_by _ s _)

is_some-summary_of :
    {V : Type 0} (zero_version : V) (version? : Text → Option V) (above : V → V → Bool)
    (shown installed : Text) (ps : List Package)
    → is_some (
        summary_of zero_version version? above shown
          (update_version zero_version version? above installed ps))
      ≡ not (is_empty ps)
unfolding update_version
is_some-summary_of zero_version version? above shown installed [] = refl
is_some-summary_of zero_version version? above shown installed (p ∷ ps) = refl

is_some-release_summary :
    {V : Type 0} (zero_version : V) (version? : Text → Option V) (above : V → V → Bool)
    (installed : Text) (u : ProxmoxUpdateData)
    → is_some (release_summary zero_version version? above installed (known u))
      ≡ not (is_empty u.packages)
unfolding release_summary update_info
is_some-release_summary zero_version version? above installed u =
    is_some-summary_of zero_version version? above installed (or_text installed (text "unknown"))
      u.packages

-- The entity has release notes exactly when packages are pending, and they begin with its summary.
release_notes-release_summary :
    {V : Type 0} (zero_version : V) (version? : Text → Option V) (above : V → V → Bool)
    (installed : Text) (u : ProxmoxUpdateData)
    → let summary = release_summary zero_version version? above installed (known u) in
      let notes = release_notes summary (known u) in
      (is_some notes ≡ not (is_empty u.packages))
      × (starts_with (or_empty summary) (or_empty notes) ≡ true)
release_notes-release_summary zero_version version? above installed u =
    let summary = release_summary zero_version version? above installed (known u) in
    let lem = release_notes_lem summary u in
    (lem.0 ∙ is_some-release_summary zero_version version? above installed u, lem.1)
