-- ===== src/CoordinateSystem/Invariant/Reached.antt =====
-- The coordinate systems that any calls make (src/coordSys/CoordinateSystem.cc).
use fimex.CoordinateSystem.Invariant.{
  set_auxiliary_axis-IsConsistent, set_axis-IsConsistent, IsConsistent,
}
use fimex.Prelude.Text.{contains}
use fimex.Prelude.Dict.{NameSet}
use fimex.Prelude.{refl, arith, Bool, String}
use fimex.CoordinateSystem.{
  set_auxiliary_axis, add_dependency_variable, set_axis, set_cs_for, empty_system, CoordinateAxis,
  CoordinateSystem, set_complete,
}

-- A call of a method that changes a coordinate system.
pub data SystemCall : Type 0 where
  call_set_axis : CoordinateAxis → SystemCall
  call_set_auxiliary_axis : CoordinateAxis → SystemCall
  call_set_complete : String → Bool → SystemCall
  call_set_cs_for : String → Bool → SystemCall
  call_add_dependency_variable : String → SystemCall

-- What the call leaves behind, also where it throws.
unfoldable pub after_system_call : SystemCall → CoordinateSystem → CoordinateSystem
after_system_call (call_set_axis axis) cs = (set_axis axis cs).1
after_system_call (call_set_auxiliary_axis axis) cs = set_auxiliary_axis axis cs
after_system_call (call_set_complete var_name set) cs = set_complete var_name set cs
after_system_call (call_set_cs_for var_name set) cs = set_cs_for var_name set cs
after_system_call (call_add_dependency_variable var_name) cs = add_dependency_variable var_name cs

-- The systems that are reached from a new one.
pub data IsSystem : CoordinateSystem → Type 0 where
  new_system : IsSystem empty_system
  called :
      {cs : CoordinateSystem} (m : SystemCall) → IsSystem cs → IsSystem (after_system_call m cs)

-- Only the axes matter.
same_axes-IsConsistent :
    (cs_for complete dependency : NameSet) {cs : CoordinateSystem}
    → IsConsistent cs
    → IsConsistent
        (record cs { cs_for_vars = cs_for; complete_vars = complete; dependency_vars = dependency })
same_axes-IsConsistent cs_for complete dependency c = record {
  axes_distinct = c.axes_distinct;
  auxiliary_distinct = c.auxiliary_distinct;
  apart = c.apart;
  one_of_type = c.one_of_type;
}

after_system_call-IsConsistent :
    (m : SystemCall) {cs : CoordinateSystem}
    → IsConsistent cs
    → IsConsistent (after_system_call m cs)
unfolding after_system_call set_complete set_cs_for add_dependency_variable
after_system_call-IsConsistent (call_set_axis axis) c = set_axis-IsConsistent axis c
after_system_call-IsConsistent (call_set_auxiliary_axis axis) c =
    set_auxiliary_axis-IsConsistent axis c
after_system_call-IsConsistent (call_set_complete n b) {cs} c =
    same_axes-IsConsistent cs.cs_for_vars (set_complete n b cs).complete_vars cs.dependency_vars c
after_system_call-IsConsistent (call_set_cs_for n b) {cs} c =
    same_axes-IsConsistent (set_cs_for n b cs).cs_for_vars cs.complete_vars cs.dependency_vars c
after_system_call-IsConsistent (call_add_dependency_variable n) {cs} c =
    same_axes-IsConsistent cs.cs_for_vars cs.complete_vars
      (add_dependency_variable n cs).dependency_vars c

-- In a coordinate system that any order of calls of setAxis, setAuxiliaryAxis, setComplete,
-- setCSFor and addDependencyVariable makes, also where setAxis throws, no name is that of two axes,
-- auxiliary axes included, and of the other axes no two have one type, but for the undefined type.
pub IsSystem-IsConsistent : {cs : CoordinateSystem} → IsSystem cs → IsConsistent cs
unfolding contains
IsSystem-IsConsistent new_system = record {
  axes_distinct = tt;
  auxiliary_distinct = tt;
  apart = λ n h. refl;
  one_of_type = λ type d. omega arith;
}
IsSystem-IsConsistent (called m reached) =
    after_system_call-IsConsistent m (IsSystem-IsConsistent reached)
