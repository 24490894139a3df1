-- ===== src/Core/Context/External.antt =====
-- crates/rupi-core/src/context.rs: evidence held by an external knowledge provider. A metadata map is
-- the list of its entries.
use pi_rs.Prelude.{◌≡◌, Bool, true, false, Option, List, [], arith}
use pi_rs.Prelude.Text.{Text}

pub record ExternalContextSource : Type 0 where
  pub provider : Text
  pub resource_id : Text
  pub provenance : Text

pub record ExternalContextRef : Type 0 where
  pub provider : Text
  pub resource_id : Text
  pub citation : Option Text
  pub provenance : Text
  pub metadata : List (Text × Text)

pub record ExternalContextItem : Type 0 where
  pub source : ExternalContextSource
  pub citation : Option Text
  pub text : Text
  pub inline : Bool
  pub metadata : List (Text × Text)

unfoldable pub source : ExternalContextRef → ExternalContextSource
source r = record { provider = r.provider; resource_id = r.resource_id; provenance = r.provenance }

unfoldable pub external_ref : ExternalContextItem → ExternalContextRef
external_ref i = record {
  provider = i.source.provider;
  resource_id = i.source.resource_id;
  citation = i.citation;
  provenance = i.source.provenance;
  metadata = i.metadata;
}

unfoldable pub compact_to_reference : ExternalContextItem → ExternalContextItem
compact_to_reference i = record {
  source = i.source;
  citation = i.citation;
  text = [];
  inline = false;
  metadata = i.metadata;
}

unfoldable pub rehydrate : ExternalContextRef → Text → ExternalContextItem
unfolding source
rehydrate r text = record {
  source = source r;
  citation = r.citation;
  text = text;
  inline = true;
  metadata = r.metadata;
}

-- Inline evidence that was compacted to a reference comes back whole when its text is read again.
pub rehydrate-compact :
    (i : ExternalContextItem)
    → i.inline ≡ true
    → rehydrate (external_ref (compact_to_reference i)) i.text ≡ i
unfolding rehydrate external_ref compact_to_reference
rehydrate-compact i h = ground arith
