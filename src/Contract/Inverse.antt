-- ===== src/Contract/Inverse.antt =====
-- What `SystemChange::inverse` promises: the rollback of a change.
use supa_diska_klinah.Base.{
  suc, ◌≡◌, refl, ◌⊎◌, ap, true, false, none, some, List, [], ◌∷◌, map, ok, err, arith, ◌↔◌, length,
  is_empty,
}
use supa_diska_klinah.Contract.Types.{
  SystemChange, edit_hosts, hosts, PriorState, schedule, irreversible_change, HostsLineOp,
  HostsLineAction,
}
use supa_diska_klinah.Contract.Changes.{
  inverse, inverse_op, inverse_action, is_satisfied_by, module_of, privilege, reversibility,
  is_reversible, validate, validate_cadence, op_lines, validate_hosts,
}

-- Whenever a change has an inverse for a prior state, that prior state satisfies the inverse, so
-- that applying it restores what was recorded; or the change edits the hosts file, which its
-- adapter judges.
pub inverse_restores :
    (change undo : SystemChange) (prior : PriorState)
    → inverse change prior ≡ ok (some undo)
    → (is_satisfied_by undo prior ≡ some true) ⊎ (module_of change ≡ hosts)
unfolding inverse is_satisfied_by module_of
inverse_restores change undo prior h = ground arith

-- The inverse of a change belongs to the same module and needs the same privilege as the change.
pub inverse_scope :
    (change undo : SystemChange) (prior : PriorState)
    → inverse change prior ≡ ok (some undo)
    → (module_of undo ≡ module_of change) × (privilege undo ≡ privilege change)
unfolding inverse module_of privilege
inverse_scope change undo prior h = ground arith

inverse_action_twice : (a : HostsLineAction) → inverse_action (inverse_action a) ≡ a
unfolding inverse_action
inverse_action_twice a = ground arith

pub inverse_ops_twice : (ops : List HostsLineOp) → map inverse_op (map inverse_op ops) ≡ ops
inverse_ops_twice [] = refl
inverse_ops_twice (op ∷ ops) = ground (arith, inverse_action_twice op.action, inverse_ops_twice ops)

-- the lines that an edit touches are those that its rollback touches
pub op_lines-inverse_ops : (ops : List HostsLineOp) → op_lines (map inverse_op ops) ≡ op_lines ops
op_lines-inverse_ops [] = refl
op_lines-inverse_ops (op ∷ ops) = ground (arith, op_lines-inverse_ops ops)

length-inverse_ops : (ops : List HostsLineOp) → length (map inverse_op ops) ≡ length ops
length-inverse_ops [] = refl
length-inverse_ops (op ∷ ops) = ap suc (length-inverse_ops ops)

is_empty-inverse_ops : (ops : List HostsLineOp) → is_empty (map inverse_op ops) ≡ is_empty ops
is_empty-inverse_ops [] = refl
is_empty-inverse_ops (op ∷ ops) = refl

pub validate_hosts-inverse_ops :
    (ops : List HostsLineOp) → validate_hosts (map inverse_op ops) ≡ validate_hosts ops
unfolding validate_hosts
validate_hosts-inverse_ops ops =
    simp (op_lines-inverse_ops, length-inverse_ops, is_empty-inverse_ops)

-- A recorded cadence is in range. The other observations are bounded by their types.
abbrev pub PriorIsValid : PriorState → Type 0
PriorIsValid (schedule (some cadence)) = validate_cadence cadence ≡ ok tt
PriorIsValid _ = Unit

-- If a change is valid and a schedule in the prior state has a valid cadence, then the inverse of
-- the change for this prior state is valid.
pub inverse_valid :
    (change undo : SystemChange) (prior : PriorState)
    → validate change ≡ ok tt
    → PriorIsValid prior
    → inverse change prior ≡ ok (some undo)
    → validate undo ≡ ok tt
unfolding inverse validate
inverse_valid (edit_hosts ops) undo prior v p h = ground (arith, validate_hosts-inverse_ops ops)
inverse_valid change undo prior v p h = ground arith

pub inverse_refused :
    (change : SystemChange) (prior : PriorState)
    → (inverse change prior ≡ err irreversible_change)
      ↔ (is_reversible (reversibility change) ≡ false)
unfolding inverse
inverse_refused change prior = ground arith

-- If a change has no inverse because there is nothing to restore, then the prior state is that no
-- schedule existed, and it already satisfies the change.
inverse-none :
    (change : SystemChange) (prior : PriorState)
    → inverse change prior ≡ ok none
    → (is_satisfied_by change prior ≡ some true) × (prior ≡ schedule none)
unfolding inverse is_satisfied_by
inverse-none change prior h = ground arith

-- The inverse of the inverse of a hosts edit is the hosts edit itself, whatever two prior states
-- it is taken for, provided that both inverses exist.
hosts_inverse_twice :
    (ops : List HostsLineOp) (undo redo : SystemChange) (before after : PriorState)
    → inverse (edit_hosts ops) before ≡ ok (some undo)
    → inverse undo after ≡ ok (some redo)
    → redo ≡ edit_hosts ops
unfolding inverse
hosts_inverse_twice ops undo redo before after p q = ground (arith, inverse_ops_twice ops)
