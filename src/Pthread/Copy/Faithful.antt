-- ===== src/Pthread/Copy/Faithful.antt =====
-- `copyn` of libpthread/lua_pthread.c gives copies, or refuses a value that cannot be copied.
use text.Mathlib.Text.{◌==◌ as str_eq}
use flualibs.Common.{
  ℕ, zero, suc, ◌≡◌, refl, ◌∙◌, Bool, true, false, some, String, List, [], ◌∷◌, ◌++◌, get_elem?,
  length, if◌then◌else◌, Bool-cases, Option-cases, inl, inr, get_elem?-append_lt,
  get_elem?-append_length, get_elem?-lt,
}
use flualibs.Lua.{Value}
use flualibs.Pthread.Copy.{
  Closure, Closures, Copied, copied, refused, and_then, nested, loaded_upvalue, copy_upvalues,
  push_closure, copy_value, copy_closure,
}
use flualibs.Pthread.Copy.Meaning.{
  plain, Extends, Copies, Upvalues, Copies-Extends, Upvalues-Extends, Refuses, SomeRefuses, Ended,
  EndedUpvalues,
}

module _ (slot : Bool) (dumps : ℕ → Bool) (from : Closures) (globals : Value) where
  abbrev Upv : ℕ → Closures → Bool → List (String × Value) → Copied (List (String × Value)) → Type 0
  Upv = EndedUpvalues slot dumps from globals

  abbrev End : ℕ → Closures → Value → Copied Value → Type 0
  End = Ended slot dumps from globals

  -- The upvalue before those that were copied to the end.
  cons_environment :
      (idx : ℕ) (to : Closures) (first : Bool) (name : String) (v : Value)
      (us : List (String × Value))
      → str_eq name "_ENV" ≡ true
      → (r : Copied (List (String × Value))) → Upv idx to false us r
      → Upv idx to first
          ((name, v) ∷ us)
          (and_then r λ ws to. copied ((name, loaded_upvalue first globals) ∷ ws) to)
  cons_environment idx to true name v us e r (EndedUpvalues.complete ws more ext h) =
      EndedUpvalues.complete _ more ext (Upvalues.environment name v e h)
  cons_environment idx to false name v us e r (EndedUpvalues.complete ws more ext h) =
      EndedUpvalues.complete _ more ext (Upvalues.lost_environment name v e h)
  cons_environment idx to first name v us e r (EndedUpvalues.rejected some_bad) =
      EndedUpvalues.rejected (SomeRefuses.later (name, v) us some_bad)
  cons_environment idx to first name v us e r EndedUpvalues.too_deep = EndedUpvalues.too_deep

  cons_other :
      (idx : ℕ) (to mid : Closures) (first : Bool) (name : String) (v w : Value)
      (us : List (String × Value))
      → str_eq name "_ENV" ≡ false
      → Extends to mid
      → Copies slot dumps from globals mid v w
      → (r : Copied (List (String × Value))) → Upv idx mid false us r
      → Upv idx to first ((name, v) ∷ us) (and_then r λ ws to. copied ((name, w) ∷ ws) to)
  cons_other idx to mid first name v w us e before c r (EndedUpvalues.complete ws more ext h) =
      EndedUpvalues.complete _ more (λ g d at. ext g d (before g d at))
        (Upvalues.other first name e (Copies-Extends slot dumps from globals ext c) h)
  cons_other idx to mid first name v w us e before c r (EndedUpvalues.rejected some_bad) =
      EndedUpvalues.rejected (SomeRefuses.later (name, v) us some_bad)
  cons_other idx to mid first name v w us e before c r EndedUpvalues.too_deep =
      EndedUpvalues.too_deep

  -- How the copy of an upvalue ends.
  data Nested (idx : ℕ) (to : Closures) (v : Value) : Copied Value → Type 0 where
    seen : {r : Copied Value} → End idx to v r → Nested idx to v r
    hidden : (f : ℕ) → v ≡ Value.function f → slot ≡ true → Nested idx to v (refused idx)

  Nested-if :
      (idx : ℕ) (to : Closures) (v : Value) (b : Bool) {r q : Copied Value}
      → (b ≡ true → Nested idx to v r)
      → Nested idx to v q
      → Nested idx to v (if b then r else q)
  Nested-if idx to v true h k = h refl
  Nested-if idx to v false h k = k

  nested-Nested :
      (copy : Value → Closures → Copied Value) (idx : ℕ)
      → ((v : Value) (to : Closures) → End idx to v (copy v to))
      → (v : Value) (to : Closures) → Nested idx to v (nested slot copy idx v to)
  nested-Nested copy idx each (Value.function f) to =
      Nested-if idx to (Value.function f) slot (λ e. Nested.hidden f refl e)
        (Nested.seen (each (Value.function f) to))
  nested-Nested copy idx each v to = Nested.seen (each v to)

  -- An upvalue that is copied, with what is done to the rest.
  head_other :
      (idx : ℕ) (to : Closures) (first : Bool) (name : String) (v : Value)
      (us : List (String × Value))
      → str_eq name "_ENV" ≡ false
      → (rest : Closures → Copied (List (String × Value)))
      → ((mid : Closures) → Upv idx mid false us (rest mid))
      → (r : Copied Value) → Nested idx to v r
      → Upv idx to first
          ((name, v) ∷ us)
          (and_then r λ w mid. and_then (rest mid) λ ws more. copied ((name, w) ∷ ws) more)
  head_other idx to first name v us e rest all r (Nested.seen (Ended.complete w mid ext c)) =
      cons_other idx to mid first name v w us e ext c (rest mid) (all mid)
  head_other idx to first name v us e rest all r (Nested.seen (Ended.rejected bad)) =
      EndedUpvalues.rejected (SomeRefuses.here name v us e bad)
  head_other idx to first name v us e rest all r (Nested.seen Ended.too_deep) =
      EndedUpvalues.too_deep
  head_other idx to first name v us e rest all r (Nested.hidden f h slots) =
      rw h (EndedUpvalues.rejected (SomeRefuses.slotted name f us e slots))

  copy_upvalues-Ended :
      (copy : Value → Closures → Copied Value) (idx : ℕ)
      → ((v : Value) (to : Closures) → Nested idx to v (copy v to))
      → (first : Bool) (us : List (String × Value)) (to : Closures)
      → Upv idx to first us (copy_upvalues copy globals first us to)
  unfolding copy_upvalues
  copy_upvalues-Ended copy idx each first [] to =
      EndedUpvalues.complete [] to (λ g c at. at) (Upvalues.none_left first)
  copy_upvalues-Ended copy idx each first ((name, v) ∷ us) to =
      elim (Bool-cases (str_eq name "_ENV")) [
        | inl e ↦ rw e (
            cons_environment idx to first name v us e _
              (copy_upvalues-Ended copy idx each false us to))
        | inr e ↦ rw e (
            head_other idx to first name v us e (copy_upvalues copy globals false us)
              (λ mid. copy_upvalues-Ended copy idx each false us mid) (copy v to) (each v to))
      ]

  -- The closure that is pushed last is a copy of the function.
  function_pushed :
      (idx : ℕ) (to : Closures) (f : ℕ) (c : Closure)
      → get_elem? from f ≡ some c
      → (r : Copied (List (String × Value))) → Upv idx to true c.upvalues r
      → End idx to (Value.function f) (and_then r (push_closure c.proto))
  function_pushed idx to f c at r (EndedUpvalues.complete ws more ext h) =
      let new : Closure = record { proto = c.proto; upvalues = ws } in
      let longer : Extends more (more ++ new ∷ []) =
        λ g d here. get_elem?-append_lt more (new ∷ []) g (get_elem?-lt more g here) ∙ here in
      Ended.complete _ _ (λ g d here. longer g d (ext g d here))
        (Copies.closure f (length more) c new at (get_elem?-append_length more new) refl
          (Upvalues-Extends slot dumps from globals longer h))
  function_pushed idx to f c at r (EndedUpvalues.rejected bad) =
      Ended.rejected (Refuses.within f c at bad)
  function_pushed idx to f c at r EndedUpvalues.too_deep = Ended.too_deep

  copy_closure-Ended :
      (copy : Value → Closures → Copied Value) (idx : ℕ)
      → ((v : Value) (to : Closures) → Nested idx to v (copy v to))
      → (f : ℕ) (to : Closures)
      → End idx to
          (Value.function f)
          (copy_closure slot dumps from globals copy idx (get_elem? from f) to)
  unfolding copy_closure
  copy_closure-Ended copy idx each f to = elim (Option-cases (get_elem? from f)) [
    | inl e ↦ rw e (Ended.rejected (Refuses.missing f e))
    | inr (c, e) ↦ elim (Bool-cases (dumps c.proto)) [
      | inl d ↦
          rw (e, d)
            (function_pushed idx to f c e _ (copy_upvalues-Ended copy idx each true c.upvalues to))
      | inr d ↦ rw (e, d) (Ended.rejected (Refuses.undumped f c e d))
    ]
  ]

  kept : {idx : ℕ} {to : Closures} (v : Value) → plain v ≡ true → End idx to v (copied v to)
  kept v p = Ended.complete v _ (λ g c at. at) (Copies.as_it_is v p)

  -- A value that is copied arrives as a copy, and the closures of the target keep their places; a value
  -- that is refused cannot be copied.
  pub copy_value-Ended :
      (depth idx : ℕ) (v : Value) (to : Closures)
      → Ended slot dumps from globals idx to v (copy_value slot dumps from globals depth idx v to)
  unfolding copy_value
  copy_value-Ended zero idx v to = Ended.too_deep
  copy_value-Ended (suc depth) idx (Value.function f) to =
      copy_closure-Ended (nested slot (copy_value slot dumps from globals depth idx) idx) idx
        (nested-Nested (copy_value slot dumps from globals depth idx) idx
          λ v to. copy_value-Ended depth idx v to)
        f to
  copy_value-Ended (suc depth) idx Value.nil to = kept Value.nil refl
  copy_value-Ended (suc depth) idx (Value.boolean b) to = kept (Value.boolean b) refl
  copy_value-Ended (suc depth) idx (Value.light p) to = kept (Value.light p) refl
  copy_value-Ended (suc depth) idx (Value.integer n) to = kept (Value.integer n) refl
  copy_value-Ended (suc depth) idx (Value.float n) to = kept (Value.float n) refl
  copy_value-Ended (suc depth) idx (Value.string bs) to = kept (Value.string bs) refl
  copy_value-Ended (suc depth) idx v to = Ended.rejected (Refuses.kind v refl)
