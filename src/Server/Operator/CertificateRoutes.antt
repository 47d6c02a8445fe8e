-- ===== src/Server/Operator/CertificateRoutes.antt =====
-- remote_agent_connector/server.py: the two routes on certificates. What tls_publication.py and
-- certificate_authority.py make of their files and of a signing request is a parameter.
use remote_agent_connector.Prelude.{String, Option, none, some, ◌==◌, is_some, if◌then◌else◌}
use remote_agent_connector.Prelude.Int.{ℤ}
use remote_agent_connector.Prelude.Json.{Json, obj, Fields, field, end, to_text}
use remote_agent_connector.Prelude.Texts.{after}
use remote_agent_connector.Relay.{Exc}
use remote_agent_connector.Service.{App}
use remote_agent_connector.Delegation.{Codec}
use remote_agent_connector.Server.{ServerConfig}
use remote_agent_connector.Server.Operator.Guard.{
  Response, answer, contract_refusal, uncaught, as_operator,
}

-- What a call on certificates does: it returns, raises `RelayCaArtifactError` or
-- `RelayCertificateError`, or raises another exception.
pub data Certified : Type 0 where
  certified : Fields → Certified
  certificate_error : (code message : String) → Certified
  raised : Exc → Certified

pub record Certificates : Type 0 where
  pub load_public_ca_artifact : Option String → Certified
  -- the request, the paths of the certificate and of its key, the address and the days
  pub sign_relay_csr : String → Option String → Option String → String → ℤ → Certified

abbrev pub relay_ca_publication_contract : String
relay_ca_publication_contract = "business-mcp-remote-agent-ca-publication-v1"

abbrev pub relay_cert_issuance_contract : String
relay_cert_issuance_contract = "business-mcp-remote-agent-relay-certificate-v1"

published : Certified → App → Response Fields × App
published (certified v) s = (answer 200 v, s)
published (certificate_error code message) s =
    (contract_refusal 503 relay_ca_publication_contract code message, s)
published (raised e) s = (uncaught e, s)

unfoldable pub relay_ca_publication :
    Certificates → ServerConfig → String → App → Response Fields × App
unfolding published
relay_ca_publication certificates cfg header =
    as_operator cfg header
      (λ s. published (certificates.load_public_ca_artifact cfg.public_ca_cert_path) s)

certificate_refused : App → Response Fields × App
certificate_refused s = (
  contract_refusal 400 relay_cert_issuance_contract "relay_certificate_request_invalid"
      "Relay certificate request is invalid.",
  s,
)

signed : Certified → App → Response Fields × App
unfolding after certificate_refused
signed (certified v) s = (answer 200 v, s)
signed (certificate_error code message) s = (
  contract_refusal (if is_some (after "relay_ca_signer_" code) then 503 else 400)
      relay_cert_issuance_contract code message,
  s,
)
signed (raised e) s = certificate_refused s

-- The text of `csr_pem`, of a body that is an object with this one key.
unfoldable pub csr_of : (Json → String) → Option Json → Option String
unfolding to_text
csr_of text_of (some (obj (field name v end))) =
    if name == "csr_pem" then some (to_text text_of v) else none
csr_of text_of body = none

-- A body that is not JSON is none.
unfoldable pub issue_relay_certificate :
    Codec → Certificates → ServerConfig → String → Option Json → App → Response Fields × App
unfolding signed certificate_refused csr_of
issue_relay_certificate codec certificates cfg header body = as_operator cfg header (λ s.
    elim (csr_of codec.text_of body) [
      | none ↦ certificate_refused s
      | some csr ↦
          signed
            (certificates.sign_relay_csr csr cfg.public_ca_cert_path cfg.ca_private_key_path
              cfg.relay_ip cfg.relay_certificate_validity_days)
            s
    ])
