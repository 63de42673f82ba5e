-- ===== src/Tools/Tests.antt =====
-- Calls on the canonical registry.
use money_machine.Base.{◌≡◌, refl, ◌↔◌, [], ◌∷◌, contains_str, lookup}
use money_machine.Results.{done, refused}
use money_machine.Tools.Catalogue.{ToolDefinition, canonical_tools}
use money_machine.Tools.{
  Output, get_tool, invoke, invoke_for_review, put, register, register_all, canonical,
  mutating_in_review,
}
use money_machine.Tools.Permissions.{IsForReview, canonical-IsKeyed, invoke_for_review_iff}

abbrev output : Output
output = ("tool_id", "database.read") ∷ ("side_effect_class", "NONE") ∷ []

invoke_for_review_iff_example :
    (invoke_for_review "database.read" ("database.read" ∷ []) "A01" canonical ≡ done output) ↔ (
      (invoke "database.read" ("database.read" ∷ []) "A01" canonical ≡ done output)
      × ((definition : ToolDefinition) × (get_tool "database.read" canonical ≡ done definition)
          × IsForReview definition))
invoke_for_review_iff_example =
    invoke_for_review_iff "database.read" ("database.read" ∷ []) "A01" canonical output
      canonical-IsKeyed

purchase_refused :
    invoke_for_review "etsy.purchase_listing" ("etsy.purchase_listing" ∷ []) "A04" canonical
    ≡ refused mutating_in_review
unfolding invoke_for_review canonical contains_str get_tool lookup register_all canonical_tools
    register put
purchase_refused = refl
