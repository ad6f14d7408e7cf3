-- ===== src/Examples/Crowded.antt =====
-- A listener of one place that two sockets come to.
use lfp_pipe.Ingress.Permits.{Listener, listening, accept_public, came, Served, opened, turned}
use lfp_pipe.Ingress.Permits.Limit.{IsLimited, Served-IsLimited}

abbrev full : Listener
full = accept_public 8 (accept_public 7 (listening 1))

served : Served 1 full
served = turned (turned opened (came 7)) (came 8)

Served-IsLimited_example : IsLimited 1 full
Served-IsLimited_example = Served-IsLimited 1 full served
