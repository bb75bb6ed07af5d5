-- ===== src/Db/Sqlite/Install/Scripts.antt =====
-- What the statements of the watched tables' scripts do to the triggers (db/change_log.go).
use Prim.Native.String.{◌++◌ as ◌^^◌, count}
use text.Mathlib.TextLemmas.{append_cancel_left, append_cancel_right, append_inj, length-append}
use harmonylite.Prelude.{
  All, keep, tests, ◌≐◌, ≐_refl, String, ◌≡◌, refl, sym, ap, ◌∙◌, ◌≢◌, inl, inr, Bool, true, false,
  ◌&&◌, ◌||◌, List, [], ◌∷◌, ◌++◌, arith, eq_iff, Bool-cases, Outcome, ok, string_eq, nat_eq,
}
use harmonylite.Db.Sqlite.{
  SchemaObject, Statement, table, index, trigger, create_table, create_index, create_trigger,
  drop_trigger, exec, harmony_lite_prefix, apply, add, present,
}
use harmonylite.Db.Sqlite.Install.{
  table_cdc_script_for, trigger_script, trigger_name, log_name, kinds,
}

-- The object is the trigger with this name, on this table.
abbrev is_on : String → String → SchemaObject → Bool
is_on n t (trigger m u) = n ≐ m && t ≐ u
is_on n t _ = false

-- The schema has the trigger with this name, on this table.
unfoldable pub has_trigger : String → String → List SchemaObject → Bool
has_trigger n t [] = false
has_trigger n t (o ∷ s) = is_on n t o || has_trigger n t s

has_trigger-append :
    (n t : String) (o : SchemaObject) (s : List SchemaObject)
    → has_trigger n t (s ++ o ∷ []) ≡ (has_trigger n t s || is_on n t o)
unfolding has_trigger
has_trigger-append n t o [] = ground arith
has_trigger-append n t o (q ∷ s) = ground (arith, has_trigger-append n t o s)

-- Adding an object keeps the triggers.
has_trigger-add :
    (n t : String) (o : SchemaObject) (s : List SchemaObject)
    → has_trigger n t s ≡ true
    → has_trigger n t (add o s) ≡ true
unfolding add
has_trigger-add n t o s h = ground (arith, has_trigger-append n t o s)

-- A dropped trigger is gone, so that it is created again.
present-drop :
    (n t : String) (s : List SchemaObject)
    → present (trigger n t) (apply (drop_trigger n) s) ≡ false
unfolding apply present keep
present-drop n t [] = refl
present-drop n t (table k ∷ s) = present-drop n t s
present-drop n t (index k u ∷ s) = present-drop n t s
present-drop n t (trigger k u ∷ s) = grind (tests, present-drop n t s)

created :
    (n t : String) (s : List SchemaObject)
    → has_trigger n t (apply (create_trigger n t) (apply (drop_trigger n) s)) ≡ true
created n t s =
    unfold apply add in rw (present-drop n t s, has_trigger-append, ≐_refl n, ≐_refl t) (or_true _)
  where
    or_true : (b : Bool) → (b || true) ≡ true
    or_true true = refl
    or_true false = refl

has_trigger-drop :
    (n t m : String) (s : List SchemaObject)
    → n ≢ m
    → has_trigger n t (apply (drop_trigger m) s) ≡ has_trigger n t s
unfolding apply has_trigger keep
has_trigger-drop n t m [] h = refl
has_trigger-drop n t m (table k ∷ s) h = has_trigger-drop n t m s h
has_trigger-drop n t m (index k u ∷ s) h = has_trigger-drop n t m s h
has_trigger-drop n t m (trigger k u ∷ s) h = grind (tests, has_trigger-drop n t m s h)

-- Dropping a trigger and creating it again keeps the others, and itself if its table is the same.
has_trigger-again :
    (n t m u : String) (s : List SchemaObject)
    → (n ≡ m → t ≡ u)
    → has_trigger n t s ≡ true
    → has_trigger n t (apply (create_trigger m u) (apply (drop_trigger m) s)) ≡ true
has_trigger-again n t m u s one h = elim (Bool-cases (n ≐ m)) [
  | inl e ↦ let same : n ≡ m = (eq_iff n m).0 e in rw (same, one same) (created m u s)
  | inr e ↦
      let kept = has_trigger-drop n t m s (λ k. ground (arith, (eq_iff n m).1 k)) in
      unfold apply in has_trigger-add n t (trigger m u) _ (kept ∙ h)
]

-- The ends of the triggers' names are of one length, so that a name has one table.
HasEnd : String → Type 0
HasEnd k = count ("_on_" ^^ k) ≡ 10

trigger_name-inj :
    (t u k l : String) → HasEnd k → HasEnd l → trigger_name t k ≡ trigger_name u l → t ≡ u
unfolding trigger_name log_name HasEnd
trigger_name-inj t u k l hk hl e =
    let lengths : count (log_name t) ≡ count (log_name u) = omega (
      arith,
      sym (length-append (log_name t) ("_on_" ^^ k))
          ∙ ap count e
          ∙ length-append (log_name u) ("_on_" ^^ l),
      hk,
      hl,
    ) in
    append_cancel_right t u "_change_log" (
      append_cancel_left harmony_lite_prefix (t ^^ "_change_log") (u ^^ "_change_log")
        (append_inj e lengths).0)

-- The statements' effect where none of them fails.
pub apply_all : List Statement → List SchemaObject → List SchemaObject
apply_all [] s = s
apply_all (q ∷ qs) s = apply_all qs (apply q s)

pub exec-ok :
    (io : Statement → Outcome) (qs : List Statement) (s : List SchemaObject)
    → (exec io qs s).0 ≡ ok tt
    → (exec io qs s).1 ≡ apply_all qs s
unfolding exec apply_all
exec-ok io [] s h = refl
exec-ok io (q ∷ qs) s h = ground (arith, exec-ok io qs (apply q s))

-- A trigger of a table is kept by the script of any table.
trigger_script-keeps :
    (t k u : String) (ks : List String) (s : List SchemaObject)
    → HasEnd k
    → All HasEnd ks
    → has_trigger (trigger_name t k) t s ≡ true
    → has_trigger (trigger_name t k) t (apply_all (trigger_script u ks) s) ≡ true
unfolding trigger_script apply_all
trigger_script-keeps t k u [] s e es h = h
trigger_script-keeps t k u (l ∷ ks) s e (el, es) h = trigger_script-keeps t k u ks _ e es (
    has_trigger-again (trigger_name t k) t (trigger_name u l) u s (trigger_name-inj t u k l e el) h)

-- The table has its trigger for each operation, under its name, and on the table.
abbrev pub AllHooked : String → List SchemaObject → Type 0
AllHooked t s = All (λ k. has_trigger (trigger_name t k) t s ≡ true) kinds

ends : All HasEnd kinds
unfolding HasEnd
ends = (refl, (refl, (refl, tt)))

trigger_script-makes :
    (t : String) (ks : List String) (s : List SchemaObject)
    → All HasEnd ks
    → All (λ k. has_trigger (trigger_name t k) t (apply_all (trigger_script t ks) s) ≡ true) ks
unfolding trigger_script apply_all
trigger_script-makes t [] s es = tt
trigger_script-makes t (k ∷ ks) s (e, es) = (
  trigger_script-keeps t k t ks _ e es (created (trigger_name t k) t s),
  trigger_script-makes t ks _ es,
)

create_table-keeps :
    (n t m : String) (s : List SchemaObject)
    → has_trigger n t s ≡ true
    → has_trigger n t (apply (create_table true m) s) ≡ true
unfolding apply
create_table-keeps n t m s h =
    has_trigger-add n t (table "sqlite_sequence") (add (table m) s)
      (has_trigger-add n t (table m) s h)

create_index-keeps :
    (n t m u : String) (s : List SchemaObject)
    → has_trigger n t s ≡ true
    → has_trigger n t (apply (create_index m u) s) ≡ true
unfolding apply
create_index-keeps n t m u s h = has_trigger-add n t (index m u) s h

script-keeps_one :
    (t k u : String) (s : List SchemaObject)
    → HasEnd k
    → has_trigger (trigger_name t k) t s ≡ true
    → has_trigger (trigger_name t k) t (apply_all (table_cdc_script_for u) s) ≡ true
unfolding table_cdc_script_for apply_all apply
script-keeps_one t k u s e h =
    let s' = apply (create_table true (log_name u)) s in
    let s'' = apply (create_index (log_name u ^^ "_state_index") (log_name u)) s' in
    trigger_script-keeps t k u kinds s'' e ends (
      create_index-keeps (trigger_name t k) t (log_name u ^^ "_state_index") (log_name u) s'
        (create_table-keeps (trigger_name t k) t (log_name u) s h))

-- The script of any table keeps the triggers of a table.
pub script-keeps :
    (t u : String) (s : List SchemaObject)
    → AllHooked t s
    → AllHooked t (apply_all (table_cdc_script_for u) s)
script-keeps t u s (a, (b, (c, _))) =
    let (x, (y, (z, _))) = ends in
    (
      script-keeps_one t "delete" u s x a,
      (script-keeps_one t "insert" u s y b, (script-keeps_one t "update" u s z c, tt)),
    )

pub script-makes :
    (t : String) (s : List SchemaObject) → AllHooked t (apply_all (table_cdc_script_for t) s)
unfolding table_cdc_script_for apply_all
script-makes t s = trigger_script-makes t kinds _ ends
