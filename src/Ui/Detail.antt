-- ===== src/Ui/Detail.antt =====
-- internal/ui/detail.go and `handleDetail` of internal/ui/hub.go: one flow in full.
use proxysim.Prelude.{
  ℕ, ◌≤◌, ◌≡◌, ◌⊎◌, inl, refl, not, Bool, true, false, List, [], ◌∷◌, ◌++◌, none, some, Text, codes,
  length, is_nil, if◌then◌else◌,
}
use proxysim.Strings.Decimal.{decimal, parse_uint}
use proxysim.Http.{Header, get}
use proxysim.Flow.{Flow, default_body_cap}
use proxysim.Flow.Decode.{Codecs, decode, effective_cap}
use proxysim.Flow.Decode.Report.{decode-Within, decode_report}
use proxysim.Ui.{Hub, lookup}

pub record BodyView : Type 0 where
  pub raw_size : ℕ
  pub truncated : Bool
  pub media_type : Text
  pub encodings : List Text
  pub decoded : Bool
  pub partial : Bool
  pub note : Text
  pub content : Text

pub record DetailResponse : Type 0 where
  pub flow : Flow
  pub request : BodyView
  pub response : BodyView

module _ (c : Codecs) where
  unfoldable pub decode_body : Header → Text → Bool → BodyView
  decode_body h body truncated =
      let v : BodyView = record {
        raw_size = length body;
        truncated = truncated;
        media_type = get h (codes "Content-Type");
        encodings = [];
        decoded = false;
        partial = false;
        note = [];
        content = [];
      } in
      let (decoded, report) = decode c (get h (codes "Content-Encoding")) body 0 in
      if is_nil body then v else record v {
        encodings = report.encodings;
        decoded = report.decoded;
        partial = report.partial;
        note = report.note;
        content = decoded;
      }

  unfoldable pub build_detail : Flow → DetailResponse
  unfolding decode_body
  build_detail f = record {
    flow = f;
    request = decode_body f.request_headers f.request_body f.request_truncated;
    response = decode_body f.response_headers f.response_body f.response_truncated;
  }

-- An answer of the UI's handlers: an error status with its text, or a JSON document.
pub data Answer {ℓ} (A : Type ℓ) : Type ℓ where
  http_error : ℕ → Text → Answer A
  document : A → Answer A

unfoldable pub handle_detail : Codecs → Hub → Text → Answer DetailResponse
handle_detail c h id = elim (parse_uint id) [
  | none ↦ http_error 400 (codes "invalid flow id")
  | some n ↦ elim (lookup h n) [
    | none ↦ http_error 404 (codes "flow " ++ (decimal n ++ codes " not found"))
    | some f ↦ document (build_detail c f)
  ]
]

-- A body's view is bounded and honest: it has the stored size and truncation; its content is the
-- stored body where nothing was decoded and otherwise at most 10 MiB, and it has a note exactly
-- when decoding stopped early.
pub decode_body_lem :
    (c : Codecs) (h : Header) (body : Text) (truncated : Bool)
    → ((decode_body c h body truncated).raw_size ≡ length body)
      × ((decode_body c h body truncated).truncated ≡ truncated)
      × (((decode_body c h body truncated).decoded ≡ false)
            × ((decode_body c h body truncated).content ≡ body)
          ⊎ ((decode_body c h body truncated).decoded ≡ true)
            × (length (decode_body c h body truncated).content ≤ default_body_cap))
      × ((decode_body c h body truncated).partial
          ≡ not (is_nil (decode_body c h body truncated).note))
unfolding decode_body effective_cap
decode_body_lem c h [] truncated = (refl, refl, inl (refl, refl), refl)
decode_body_lem c h (x ∷ body) truncated = (
  refl,
  refl,
  decode-Within c (get h (codes "Content-Encoding")) (x ∷ body) 0,
  (decode_report c (get h (codes "Content-Encoding")) (x ∷ body) 0).0,
)
