-- ===== src/Config.antt =====
-- The configuration of the engine (crates/zlauder-engine/src/config.rs): what decides which
-- detections are masked, and how. Scores are `f32` values that are finite and not negative, each
-- counted in units of 2^-149, of which every such value is a multiple.
use zlau_de_r.Prelude.{ℕ, ◌*◌, ◌^◌, Bool, not, ◌&&◌, ◌||◌, ◌==◌}
use zlau_de_r.Prelude.{if◌then◌else◌, none, some, List, [], ◌∷◌, ◌++◌, any, is_some}
use zlau_de_r.Prelude.{length, Text, codes, text_eq, contains, get, replace, has_text}
use zlau_de_r.Externals.{Externals}
use zlau_de_r.Surface.{Surface, contains_surface}

abbrev pub Score : Type 0
Score = ℕ

-- An `f32` of a 24-bit significand and an exponent of -25.
abbrev pub score_at : ℕ → Score
score_at significand = significand * 2 ^ 124

-- 1.0, 0.4, 0.5 and 0.6.
abbrev pub score_one : Score
score_one = 2 ^ 149

abbrev pub score_04 : Score
score_04 = score_at 13421773

abbrev pub score_05 : Score
score_05 = 2 ^ 148

abbrev pub score_06 : Score
score_06 = 10066330 * 2 ^ 125

pub data Profile : Type 0 where
  strict balanced minimal secrets_only : Profile

pub data Category : Type 0 where
  secrets financial identity contact network personal : Category

-- The character of `mask` is given by its UTF-8 bytes.
pub data Operator : Type 0 where
  token redact hash broker local keep : Operator
  mask : Text → ℕ → Operator

abbrev pub entity_date_of_birth : Text
entity_date_of_birth = codes "DATE_OF_BIRTH"

abbrev pub entity_credit_card_expiration : Text
entity_credit_card_expiration = codes "CREDIT_CARD_EXPIRATION"

abbrev pub entity_expiration_date : Text
entity_expiration_date = codes "EXPIRATION_DATE"

abbrev pub entity_cvv : Text
entity_cvv = codes "CVV"

abbrev pub entity_private_date : Text
entity_private_date = codes "PRIVATE_DATE"

abbrev pub entity_url_credential : Text
entity_url_credential = codes "URL_CREDENTIAL"

unfoldable pub default_threshold : Profile → Score
default_threshold Profile.strict = score_04
default_threshold Profile.balanced = score_05
default_threshold Profile.secrets_only = score_06
default_threshold Profile.minimal = score_06

unfoldable pub default_categories : Profile → List Category
default_categories Profile.strict =
    Category.secrets ∷ Category.financial ∷ Category.identity ∷ Category.contact ∷ Category.network
    ∷ Category.personal ∷ []
default_categories Profile.balanced =
    Category.secrets ∷ Category.financial ∷ Category.identity ∷ Category.contact ∷ []
default_categories Profile.minimal = Category.secrets ∷ Category.financial ∷ []
default_categories Profile.secrets_only = Category.secrets ∷ []

unfoldable pub profile_operator : Profile → Operator
profile_operator _ = Operator.token

unfoldable pub entity_types : Category → List Text
entity_types Category.secrets =
    codes "API_KEY"
    ∷ codes "AWS_ACCESS_KEY"
    ∷ codes "AWS_SECRET_KEY"
    ∷ codes "AZURE_KEY"
    ∷ codes "GCP_API_KEY"
    ∷ codes "PRIVATE_KEY"
    ∷ codes "JWT"
    ∷ entity_url_credential
    ∷ []
entity_types Category.financial =
    codes "CREDIT_CARD"
    ∷ codes "IBAN_CODE"
    ∷ codes "CRYPTO"
    ∷ codes "US_BANK_NUMBER"
    ∷ codes "ABA_ROUTING_NUMBER"
    ∷ entity_credit_card_expiration
    ∷ entity_expiration_date
    ∷ entity_cvv
    ∷ []
entity_types Category.identity =
    codes "US_SSN"
    ∷ codes "US_ITIN"
    ∷ codes "NATIONAL_ID"
    ∷ codes "PASSPORT"
    ∷ codes "US_PASSPORT"
    ∷ codes "UK_PASSPORT"
    ∷ codes "DRIVER_LICENSE"
    ∷ codes "US_DRIVER_LICENSE"
    ∷ codes "UK_DRIVING_LICENCE"
    ∷ codes "MEDICAL_LICENSE"
    ∷ codes "US_NPI"
    ∷ codes "US_MBI"
    ∷ codes "UK_NHS"
    ∷ codes "UK_NINO"
    ∷ entity_date_of_birth
    ∷ entity_private_date
    ∷ entity_expiration_date
    ∷ []
entity_types Category.contact = codes "EMAIL_ADDRESS" ∷ codes "PHONE_NUMBER" ∷ []
entity_types Category.network = codes "IP_ADDRESS" ∷ codes "URL" ∷ codes "MAC_ADDRESS" ∷ []
entity_types Category.personal = codes "PERSON" ∷ codes "LOCATION" ∷ codes "ORGANIZATION" ∷ []

-- A pattern is the matcher that the regex crate compiles.
pub record AllowList : Type 0 where
  pub exact : List Text
  pub exact_ci : List Text
  pub patterns : List (Text → Bool)

unfoldable pub is_allowed : Externals → AllowList → Text → Bool
is_allowed x al value =
    contains al.exact value
    || (contains al.exact_ci (x.to_lowercase value) || any (λ p. p value) al.patterns)

pub record RevealMarker : Type 0 where
  pub enabled : Bool
  pub prefix : Text
  pub suffix : Text

abbrev pub is_empty : Text → Bool
is_empty t = length t == 0

unfoldable pub is_active : RevealMarker → Bool
is_active m = m.enabled && (not (is_empty m.prefix) || not (is_empty m.suffix))

unfoldable pub wrap : RevealMarker → Text → Text
wrap m value = m.prefix ++ (value ++ m.suffix)

unfoldable pub contained_in : RevealMarker → Text → Bool
contained_in m text =
    (not (is_empty m.prefix) && has_text m.prefix text)
    || (not (is_empty m.suffix) && has_text m.suffix text)

unfoldable pub strip : RevealMarker → Text → Text
strip m text =
    let out = if is_empty m.prefix then text else replace m.prefix [] text in
    if not (is_empty m.suffix) && not (text_eq m.suffix m.prefix)
    then replace m.suffix [] out
    else out

-- The fields that the modelled operations read.
pub record EngineConfig : Type 0 where
  pub enabled : Bool
  pub score_threshold : Score
  pub enabled_categories : List Category
  pub default_operator : Operator
  pub entity_operators : List (Text × Operator)
  pub language : Text
  pub fail_closed : Bool
  pub disabled_surfaces : List Surface
  pub allow_list : AllowList
  pub reveal_marker : RevealMarker
  pub detection_cache_cap : ℕ

unfoldable pub entity_enabled : EngineConfig → Text → Bool
entity_enabled cfg entity_type =
    is_some (get entity_type cfg.entity_operators)
    || any (λ c. contains (entity_types c) entity_type) cfg.enabled_categories

unfoldable pub operator_for : EngineConfig → Text → Operator
operator_for cfg entity_type = elim (get entity_type cfg.entity_operators) [
  | some op ↦ op
  | none ↦
      if text_eq entity_type entity_cvv
      then Operator.redact
      else (if text_eq entity_type (codes "CREDIT_CARD")
          then Operator.mask (codes "*") 4
          else cfg.default_operator)
]

unfoldable pub surface_enabled : EngineConfig → Surface → Bool
surface_enabled cfg surface = not (contains_surface cfg.disabled_surfaces surface)
