-- ===== src/Permissions/Laws.antt =====
-- How a grant reaches a path: `is_granted` and `is_granted_anywhere_below` of permissions.py and
-- the buttons of button.py, over paths written out from their segments.
use mathlib.Core.List.{append_assoc}
use proxmoxve_integration.Prelude.{
  ◌≡◌, refl, ap, sym, ◌∙◌, List, [], ◌∷◌, ◌++◌, true, map, arith, All, length, take, any, ◌||◌,
  any-append, ◌↔◌, ◌⊎◌, inl, inr, Bool-cases, drop, take-append-drop, take-append, some,
  length-append, list_eq, nat_eq,
}
use proxmoxve_integration.Prelude.Int.{int_eq}
use proxmoxve_integration.Prelude.Text.{
  Text, text, join, starts_with, starts_with-append, rstrip_by,
}
use proxmoxve_integration.Const.{ProxmoxType, ProxmoxCommand}
use proxmoxve_integration.Permissions.{
  Permissions, holds, countdown, is_granted, is_granted_anywhere_below, grants_below, is_slash,
  button_permitted, ProxmoxPrivilege, privilege_value, is_bulk_guest_command, category_permitted,
}
use proxmoxve_integration.Permissions.Paths.{
  IsSegment, render, candidates-render, any-countdown→prefix, any-countdown_of_prefix, render-nil,
  render-append, rstrip-render,
}

-- A grant on the way to the segments: at them, or at some path above.
abbrev pub GrantedAt : Permissions → List Text → Text → Type 0
GrantedAt permissions parts privilege =
    (above : List Text) × (rest : List Text) × (above ++ rest ≡ parts)
    × (holds permissions privilege (render above) ≡ true)

module _ (permissions : Permissions) (privilege : Text) where
  -- The paths above the segments, the nearest first, without the root.
  abbrev walk : List Text → List Text
  walk parts = map (λ depth. render (take depth parts)) (countdown (length parts))

  is_granted-render :
      (parts : List Text)
      → All IsSegment parts
      → is_granted permissions (render parts) privilege ≡ (
          any (holds permissions privilege) (walk parts) || holds permissions privilege (render []))
  unfolding is_granted
  is_granted-render parts segments =
      rw (candidates-render parts segments, any-append, render-nil) (ground arith)

  is_granted→GrantedAt :
      (parts : List Text)
      → All IsSegment parts
      → is_granted permissions (render parts) privilege ≡ true
      → GrantedAt permissions parts privilege
  is_granted→GrantedAt parts segments granted =
      elim (Bool-cases (any (holds permissions privilege) (walk parts))) [
        | inl found ↦
            let (depth, here) =
              any-countdown→prefix (holds permissions privilege) parts (length parts) found in
            (take depth parts, drop depth parts, take-append-drop depth parts, here)
        | inr missed ↦ ([], parts, refl, ground (arith, is_granted-render parts segments))
      ]

  GrantedAt→is_granted :
      (above rest : List Text)
      → All IsSegment (above ++ rest)
      → holds permissions privilege (render above) ≡ true
      → is_granted permissions (render (above ++ rest)) privilege ≡ true
  GrantedAt→is_granted [] rest segments here = ground (arith, is_granted-render rest segments)
  GrantedAt→is_granted (p ∷ above) rest segments here = ground (
    arith,
    is_granted-render ((p ∷ above) ++ rest) segments,
    any-countdown_of_prefix (holds permissions privilege) ((p ∷ above) ++ rest)
        (length ((p ∷ above) ++ rest)) (length above),
    take-append (p ∷ above) rest,
    length-append (p ∷ above) rest,
  )

-- A privilege is granted at a path exactly when it is held at the path itself or at a path above
-- it, up to the root.
pub is_granted_iff :
    (permissions : Permissions) (parts : List Text) (privilege : Text)
    → All IsSegment parts
    → (is_granted permissions (render parts) privilege ≡ true)
      ↔ GrantedAt permissions parts privilege
is_granted_iff permissions parts privilege segments = (
  is_granted→GrantedAt permissions privilege parts segments,
  λ (above, rest, whole, here).
      rw (← whole) (GrantedAt→is_granted permissions privilege above rest (rw whole segments) here),
)

-- A grant propagates: what is granted at a path is granted at every path below it.
pub is_granted-append :
    (permissions : Permissions) (parts below : List Text) (privilege : Text)
    → All IsSegment (parts ++ below)
    → All IsSegment parts
    → is_granted permissions (render parts) privilege ≡ true
    → is_granted permissions (render (parts ++ below)) privilege ≡ true
is_granted-append permissions parts below privilege segments segments' granted =
    let (above, rest, whole, here) =
      (is_granted_iff permissions parts privilege segments').0 granted in
    (is_granted_iff permissions (parts ++ below) privilege segments).1
      (above, rest ++ below, sym (append_assoc above rest below) ∙ ap (λ t. t ++ below) whole, here)

lookup→any-grants_below :
    (permissions : Permissions) (prefix path privilege : Text)
    → starts_with prefix path ≡ true
    → holds permissions privilege path ≡ true
    → any (grants_below prefix privilege) permissions ≡ true
unfolding holds
lookup→any-grants_below [] prefix path privilege begins here = ground arith
lookup→any-grants_below ((q, ps) ∷ permissions) prefix path privilege begins here =
    ground (arith, lookup→any-grants_below permissions prefix path privilege)

append_split :
    (xs ys us vs : List Text)
    → xs ++ ys ≡ us ++ vs
    → ((r : List Text) × (xs ++ r ≡ us)) ⊎ ((q : Text) × (qs : List Text) × (xs ≡ us ++ q ∷ qs))
append_split [] ys us vs h = inl (us, refl)
append_split (x ∷ xs) ys [] vs h = inr (x, xs, refl)
append_split (x ∷ xs) ys (u ∷ us) vs h = elim (append_split xs ys us vs (cc)) [
  | inl (r, e) ↦ inl (r, cc)
  | inr (q, qs, e) ↦ inr (q, qs, cc)
]

starts_with-render :
    (p : Text) (ps : List Text) (q : Text) (qs : List Text)
    → All IsSegment (p ∷ ps)
    → starts_with (rstrip_by is_slash (render (p ∷ ps)) ++ text "/") (render ((p ∷ ps) ++ q ∷ qs))
      ≡ true
starts_with-render p ps q qs segments =
    rw
      (
        rstrip-render p ps segments,
        render-append p ps q qs,
        ← append_assoc (render (p ∷ ps)) (text "/") (join b'/' (q ∷ qs)),
      )
      (starts_with-append (render (p ∷ ps) ++ text "/") (join b'/' (q ∷ qs)))

-- A grant at a path or anywhere below it is enough for the test of the bulk actions: what is
-- granted at some path below is granted "anywhere below".
is_granted_anywhere_below-render :
    (permissions : Permissions) (p : Text) (ps below : List Text) (privilege : Text)
    → All IsSegment (p ∷ ps)
    → All IsSegment ((p ∷ ps) ++ below)
    → is_granted permissions (render ((p ∷ ps) ++ below)) privilege ≡ true
    → is_granted_anywhere_below permissions (render (p ∷ ps)) privilege ≡ true
unfolding is_granted_anywhere_below
is_granted_anywhere_below-render permissions p ps below privilege segments segments' granted =
    let (above, rest, whole, here) =
      (is_granted_iff permissions ((p ∷ ps) ++ below) privilege segments').0 granted in
    elim (append_split above rest (p ∷ ps) below whole) [
      | inl (r, e) ↦
          ground
            (arith, (is_granted_iff permissions (p ∷ ps) privilege segments).1 (above, r, e, here))
      | inr (q, qs, e) ↦ ground (
        arith,
        lookup→any-grants_below permissions (rstrip_by is_slash (render (p ∷ ps)) ++ text "/")
            (render ((p ∷ ps) ++ q ∷ qs)) privilege (starts_with-render p ps q qs segments)
            (rw e at here),
      )
    ]

vms-IsSegment : IsSegment (text "vms")
vms-IsSegment = ground arith

nodes-IsSegment : IsSegment (text "nodes")
nodes-IsSegment = ground arith

-- A button that acts on all guests of a node is offered as soon as one guest's own button for the
-- same privilege is.
button_permitted-bulk :
    (permissions : Permissions) (bulk key : ProxmoxCommand) (privilege : ProxmoxPrivilege)
    (node vmid : Text)
    → is_bulk_guest_command bulk ≡ true
    → IsSegment vmid
    → button_permitted
        (some permissions)
        (record { key = key; privilege = some privilege })
        ProxmoxType.qemu
        vmid
      ≡ true
    → button_permitted
        (some permissions)
        (record { key = bulk; privilege = some privilege })
        ProxmoxType.node
        node
      ≡ true
unfolding button_permitted category_permitted join
button_permitted-bulk permissions bulk key privilege node vmid is_bulk segment granted =
    rw is_bulk (
      is_granted_anywhere_below-render permissions (text "vms") [] (vmid ∷ [])
        (privilege_value privilege) (vms-IsSegment, tt) (vms-IsSegment, (segment, tt)) granted)

module _ (permissions : Permissions) (key : ProxmoxCommand) (privilege id : Text)
    (segment : IsSegment id) (here : holds permissions privilege (text "/") ≡ true) where
  is_granted_of_root :
      (parts : List Text)
      → All IsSegment parts
      → is_granted permissions (render parts) privilege ≡ true
  is_granted_of_root parts segments =
      (is_granted_iff permissions parts privilege segments).1 ([], parts, refl, rw render-nil here)

  category_permitted_root :
      (category : ProxmoxType) → category_permitted permissions key privilege category id ≡ true
  unfolding category_permitted join
  category_permitted_root ProxmoxType.proxmox = is_granted_of_root [] tt
  category_permitted_root ProxmoxType.node = ground (
    arith,
    is_granted_anywhere_below-render permissions (text "vms") [] [] privilege (vms-IsSegment, tt)
        (vms-IsSegment, tt) (is_granted_of_root (text "vms" ∷ []) (vms-IsSegment, tt)),
    is_granted_of_root (text "nodes" ∷ id ∷ []) (nodes-IsSegment, (segment, tt)),
  )
  category_permitted_root _ =
      is_granted_of_root (text "vms" ∷ id ∷ []) (vms-IsSegment, (segment, tt))

-- Credentials that hold a button's privilege at the root are offered the button, whatever it acts
-- on and whichever it is.
pub button_permitted_root :
    (permissions : Permissions) (key : ProxmoxCommand) (privilege : ProxmoxPrivilege)
    (category : ProxmoxType) (id : Text)
    → IsSegment id
    → holds permissions (privilege_value privilege) (text "/") ≡ true
    → button_permitted
        (some permissions)
        (record { key = key; privilege = some privilege })
        category
        id
      ≡ true
unfolding button_permitted
button_permitted_root permissions key privilege category id segment here =
    category_permitted_root permissions key (privilege_value privilege) id segment here category
