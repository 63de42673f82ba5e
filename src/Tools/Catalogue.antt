-- ===== src/Tools/Catalogue.antt =====
-- The canonical tools of src/money_machine/agents/tool_registry.py.
use money_machine.Base.{String, List, [], ◌∷◌}
use money_machine.Domain.{SideEffectClass}
use money_machine.Domain.SideEffectClass.{
  none, external_read, external_write, external_spend, external_message,
}

pub record ToolDefinition : Type 0 where
  pub tool_id : String
  pub side_effect_class : SideEffectClass
  pub description : String

abbrev tool : String → SideEffectClass → String → ToolDefinition
tool id effect text = record { tool_id = id; side_effect_class = effect; description = text }

-- `CANONICAL_TOOLS`
unfoldable pub canonical_tools : List ToolDefinition
canonical_tools =
    tool "job.create" none "Create a typed successor job"
    ∷ tool "workflow.inspect" none "Read workflow state and history"
    ∷ tool "job.retry" none "Requeue a failed job within retry policy"
    ∷ tool "configuration.read" none "Read shop and agent configuration"
    ∷ tool "database.read" none "Query durable orchestration state"
    ∷ tool "database.write_orchestration" none "Write orchestration-only workflow and job state"
    ∷ tool "provider.check_openai" external_read
        "Test OpenAI connection without credential exposure"
    ∷ tool "provider.check_anthropic" external_read
        "Test Anthropic connection without credential exposure"
    ∷ tool "provider.check_notion" external_read
        "Test Notion connection without credential exposure"
    ∷ tool "provider.check_etsy" external_read "Test Etsy connection without credential exposure"
    ∷ tool "provider.provision_workspace" external_write
        "Create provider workspace resources when holder authorized"
    ∷ tool "database.write_accounts" none "Persist integration readiness status"
    ∷ tool "incident.create" none "Create a structured incident record"
    ∷ tool "etsy.read_listing" external_read "Read one Etsy listing"
    ∷ tool "etsy.search_listings" external_read "Search Etsy listings for research"
    ∷ tool "browser.navigate" external_read "Navigate browser read-only"
    ∷ tool "storage.write_blob" none "Persist research capture blob"
    ∷ tool "etsy.purchase_listing" external_spend "Purchase competitor listing for teardown"
    ∷ tool "notion.create_page" external_write "Create Notion page"
    ∷ tool "notion.upload_asset" external_write "Upload asset to Notion"
    ∷ tool "notion.update_page" external_write "Update Notion page"
    ∷ tool "notion.link_publish" external_write "Publish Notion variant links"
    ∷ tool "notion.read_page" external_read "Read Notion page content"
    ∷ tool "notion.read_links" external_read "Read Notion link targets"
    ∷ tool "renderer.generate_asset" none "Generate deterministic local render artifact"
    ∷ tool "etsy.read_draft" external_read "Read Etsy draft listing"
    ∷ tool "etsy.publish_listing" external_write "Publish Etsy listing"
    ∷ tool "etsy.update_listing" external_write "Update Etsy listing"
    ∷ tool "etsy.deactivate_listing" external_write "Deactivate Etsy listing"
    ∷ tool "etsy.upload_media" external_write "Upload Etsy listing media"
    ∷ tool "etsy.read_shop_stats" external_read "Read Etsy shop statistics"
    ∷ tool "etsy.list_transactions" external_read "List Etsy shop transactions"
    ∷ tool "etsy.read_messages" external_read "Read Etsy messages"
    ∷ tool "etsy.send_message" external_message "Send Etsy customer message"
    ∷ []
