-- ===== src/Tools/Permissions.antt =====
-- Which calls of a tool are permitted.
use money_machine.Base.{
  String, ◌≡◌, refl, ◌≢◌, ◌↔◌, ◌⊎◌, inl, inr, Bool, true, false, not, ◌&&◌, some, List, [], ◌∷◌,
  arith, str_eq, eq_iff, contains_str, Dict, lookup, if◌then◌else◌, Option-cases, subst, sym,
}
use money_machine.Domain.{SideEffectClass}
use money_machine.Domain.SideEffectClass.{
  external_read, external_write, external_spend, external_message,
}
use money_machine.Results.{done}
use money_machine.Tools.Catalogue.{ToolDefinition, canonical_tools}
use money_machine.Tools.{
  ToolRegistry, ToolHandler, Output, get_tool, invoke, invoke_for_review, is_review_permitted,
  is_none_class, review_allowed_none_tools, put, register, register_all, simulated_handler,
  canonical,
}

-- a tool that a review may use: one that reads from outside, or one of the named internal tools
abbrev pub IsForReview : ToolDefinition → Type 0
IsForReview definition =
    (definition.side_effect_class ≡ external_read)
    ⊎ ((definition.side_effect_class ≡ SideEffectClass.none)
        × (contains_str definition.tool_id review_allowed_none_tools ≡ true))

-- A registry keeps each definition under its own name.
pub IsKeyed : ToolRegistry → Type 0
IsKeyed registry =
    (id : String) (definition : ToolDefinition)
    → lookup id registry.definitions ≡ some definition
    → definition.tool_id ≡ id

lookup-put :
    {V : Type 0} (key j : String) (value : V) (d : Dict V)
    → lookup j (put key value d) ≡ (if str_eq key j then some value else lookup j d)
unfolding lookup put
lookup-put key j value [] = refl
lookup-put key j value ((k, v) ∷ d) =
    ground (arith, lookup-put key j value d, eq_iff key j, eq_iff k key, eq_iff k j)

-- A tool that is registered is found again, with its handler, and the other tools stay.
pub register-get :
    (definition : ToolDefinition) (handler : ToolHandler) (registry : ToolRegistry) (id : String)
    → (get_tool definition.tool_id (register definition handler registry) ≡ done definition)
      × (lookup definition.tool_id (register definition handler registry).handlers ≡ some handler)
      × (id ≢ definition.tool_id
          → get_tool id (register definition handler registry) ≡ get_tool id registry)
unfolding get_tool register
register-get definition handler registry id =
    let found = lookup-put definition.tool_id definition.tool_id definition registry.definitions in
    let handled = lookup-put definition.tool_id definition.tool_id handler registry.handlers in
    let elsewhere = lookup-put definition.tool_id id definition registry.definitions in
    (
      ground (arith, found, eq_iff definition.tool_id definition.tool_id),
      ground (arith, handled, eq_iff definition.tool_id definition.tool_id),
      λ other. ground (arith, elsewhere, eq_iff definition.tool_id id),
    )

-- Registering keeps every definition under its own name.
pub register-IsKeyed :
    (definition : ToolDefinition) (handler : ToolHandler) (registry : ToolRegistry)
    → IsKeyed registry
    → IsKeyed (register definition handler registry)
unfolding IsKeyed register
register-IsKeyed definition handler registry keyed id found h =
    let e = lookup-put definition.tool_id id definition registry.definitions in
    let old = keyed id found in ground (arith, e, old, eq_iff definition.tool_id id)

empty-IsKeyed : IsKeyed (record { definitions = []; handlers = [] })
unfolding IsKeyed lookup
empty-IsKeyed id definition h = cc

register_all-IsKeyed :
    (definitions : List ToolDefinition) (registry : ToolRegistry)
    → IsKeyed registry
    → IsKeyed (register_all definitions registry)
unfolding register_all
register_all-IsKeyed [] registry keyed = keyed
register_all-IsKeyed (definition ∷ definitions) registry keyed =
    register_all-IsKeyed definitions (register definition simulated_handler registry)
      (register-IsKeyed definition simulated_handler registry keyed)

-- The canonical registry is one in which every definition stands under its own name.
pub canonical-IsKeyed : IsKeyed canonical
unfolding canonical
canonical-IsKeyed =
    register_all-IsKeyed canonical_tools (record { definitions = []; handlers = [] }) empty-IsKeyed

class_lem :
    (c : SideEffectClass) (b : Bool)
    → is_review_permitted c ≡ true
    → not (is_none_class c && not b) ≡ true
    → (c ≡ external_read) ⊎ ((c ≡ SideEffectClass.none) × (b ≡ true))
class_lem external_read b h k = inl refl
class_lem SideEffectClass.none true h k = inr (refl, refl)
class_lem SideEffectClass.none false h k = cc
class_lem external_write b h k = cc
class_lem external_spend b h k = cc
class_lem external_message b h k = cc

class_lem' :
    (c : SideEffectClass) (b : Bool)
    → (c ≡ external_read) ⊎ ((c ≡ SideEffectClass.none) × (b ≡ true))
    → (is_review_permitted c ≡ true) × (not (is_none_class c && not b) ≡ true)
class_lem' c b (inl e) = rw e (refl, refl)
class_lem' c b (inr (e, k)) = rw (e, k) (refl, refl)

invoke-allowed :
    (tool_id : String) (allowed : List String) (agent_id : String) (registry : ToolRegistry)
    {output : Output}
    → invoke tool_id allowed agent_id registry ≡ done output
    → contains_str tool_id allowed ≡ true
unfolding invoke
invoke-allowed tool_id allowed agent_id registry h = ground arith

-- In a registry that keeps each definition under its own id, a tool gives an output in a review exactly
-- where it gives the same to the agent and its definition is for review: it reads from outside, or has no
-- effect and is on the list of tools for review. None that writes, spends or sends outside is called.
pub invoke_for_review_iff :
    (tool_id : String) (allowed : List String) (agent_id : String) (registry : ToolRegistry)
    (output : Output)
    → IsKeyed registry
    → (invoke_for_review tool_id allowed agent_id registry ≡ done output) ↔ (
        (invoke tool_id allowed agent_id registry ≡ done output)
        × ((definition : ToolDefinition) × (get_tool tool_id registry ≡ done definition)
            × IsForReview definition))
unfolding IsKeyed invoke_for_review get_tool
invoke_for_review_iff tool_id allowed agent_id registry output keyed = (
  λ h. elim (Option-cases (lookup tool_id registry.definitions)) [
    | inl missing ↦ absurd (ground arith)
    | inr (definition, found) ↦
        let named = keyed tool_id definition found in
        (
          ground arith,
          (
            definition,
            rw found refl,
            subst
                (λ id.
                  (definition.side_effect_class ≡ external_read)
                  ⊎ ((definition.side_effect_class ≡ SideEffectClass.none)
                      × (contains_str id review_allowed_none_tools ≡ true)))
                (sym named)
                (class_lem definition.side_effect_class
                  (contains_str tool_id review_allowed_none_tools) (ground arith) (ground arith)),
          ),
        )
  ],
  λ (runs, (definition, got, for_review)).
      let found : lookup tool_id registry.definitions ≡ some definition = ground arith in
      let named = keyed tool_id definition found in
      let (permitted, not_write) =
        class_lem' definition.side_effect_class (contains_str tool_id review_allowed_none_tools) (
          subst
            (λ id.
              (definition.side_effect_class ≡ external_read)
              ⊎ ((definition.side_effect_class ≡ SideEffectClass.none)
                  × (contains_str id review_allowed_none_tools ≡ true)))
            named for_review) in
      rw (invoke-allowed tool_id allowed agent_id registry runs, found, permitted, not_write) runs,
)
