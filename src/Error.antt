-- ===== src/Error.antt =====
-- src/lib.rs: the crate's error type. An error of another crate is kept by the text that its
-- `Display` gives, and a `kube::Error` by its HTTP code too where it is the `Api` variant.
use sdb_controller.Prelude.{ℕ, String, ◌<>◌, Bool, false, eqb}

pub data KubeError : Type 0 where
  api : (code : ℕ) → (text : String) → KubeError
  transport : (text : String) → KubeError

abbrev pub kube_text : KubeError → String
kube_text (api code text) = text
kube_text (transport text) = text

-- The guard `kube::Error::Api(ae) if ae.code == code`.
abbrev pub has_code : ℕ → KubeError → Bool
has_code wanted (api code text) = eqb code wanted
has_code wanted (transport text) = false

pub data Error : Type 0 where
  serialization_error : String → Error
  kube_error : KubeError → Error
  std_error : String → Error
  http_error : String → Error
  retryable_kube_error : KubeError → Error
  finalizer_error : String → Error
  missing_root_credentials : Error
  service_request_error : String → Error
  reqwest_error : String → Error
  url_parse_error : String → Error

-- `Display`, as `thiserror` derives it.
unfoldable pub display : Error → String
display (serialization_error e) = "SerializationError: " <> e
display (kube_error e) = "Kube Error: " <> kube_text e
display (std_error e) = "Unknown error: " <> e
display (http_error e) = "HTTP Error: " <> e
display (retryable_kube_error e) = "Retryable Kube Error: " <> kube_text e
display (finalizer_error e) = "Finalizer Error: " <> e
display missing_root_credentials = "MissingRootCredentials"
display (service_request_error e) = "service request error: " <> e
display (reqwest_error e) = "reqwest error: " <> e
display (url_parse_error e) = "url parse error: " <> e
