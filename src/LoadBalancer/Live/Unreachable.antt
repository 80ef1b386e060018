-- ===== src/LoadBalancer/Live/Unreachable.antt =====
-- What ChooseServer of pkg/loadbalancer does where the metadata center does not answer.
use istio_llm_filter.Common.{◌≡◌, ◌≢◌, inr}
use istio_llm_filter.Metadata.Client.{Client, Transport, HttpRequest, HttpResponse}

-- No exchange ends with a response of status 200.
abbrev pub IsUnreachable : Transport → Type 0
IsUnreachable T =
    (r : HttpRequest) (resp : HttpResponse) → T.exchange r ≡ inr resp → resp.status_code ≢ 200
