-- ===== src/Privacy/Context.antt =====
-- packages/privacy/src/context.ts. The generated id and the clock's timestamp are arguments.
use ascended_core.Base.{String, Option, none, some}
use ascended_core.Core.Value.{Metadata}
use ascended_core.Privacy.Modes.{Platform, PrivacyMode}

pub record RequestContext : Type 0 where
  pub request_id : String
  pub user_id : Option String
  pub platform : Platform
  pub privacy_mode : PrivacyMode
  pub feature : String
  pub operation : Option String
  pub timestamp : String
  pub metadata : Option Metadata

pub record CreateRequestContextInput : Type 0 where
  pub feature : String
  pub platform : Platform
  pub privacy_mode : PrivacyMode
  pub request_id : Option String
  pub user_id : Option String
  pub operation : Option String
  pub timestamp : Option String
  pub metadata : Option Metadata

-- `given ?? generated`
abbrev or_else : Option String → String → String
or_else none generated = generated
or_else (some given) generated = given

pub create_request_context : CreateRequestContextInput → String → String → RequestContext
create_request_context input fresh_id now = record {
  request_id = or_else input.request_id fresh_id;
  user_id = input.user_id;
  platform = input.platform;
  privacy_mode = input.privacy_mode;
  feature = input.feature;
  operation = input.operation;
  timestamp = or_else input.timestamp now;
  metadata = input.metadata;
}
