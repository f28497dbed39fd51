-- ===== src/Core/GtpPaths/Responses.antt =====
-- Which outcomes of sendEcho in cmd/core/gtp_path_manager.go are answers.
use eupf.Base.{ℕ, ◌≡◌, refl, Bool, true, false, ◌&&◌, Option, none, some, arith, ◌==◌}
use eupf.Base.Outcome.{Error, Outcome, ok, err, panic}
use eupf.Core.GtpPaths.{EchoCalls, GtpLayer, unless_failed, check_layer, send_echo}

abbrev pub answered : Outcome ℕ → Bool
answered (ok elapsed) = true
answered (err e) = false
answered panic = false

abbrev went_well : Option Error → Bool
went_well none = true
went_well (some e) = false

abbrev is_response : Option GtpLayer → Bool
is_response none = false
is_response (some gtp) = gtp.message_type == 2 && gtp.gtp_teid == 0

-- No call fails, and what is read is a GTP packet of type 2, an echo response, with TEID 0.
abbrev pub is_echoed : EchoCalls → Bool
is_echoed c =
    went_well c.serialize_failure
    && (went_well c.local_failure
        && (went_well c.remote_failure
            && (went_well c.dial_failure
                && (went_well c.write_failure
                    && (went_well c.read_failure && is_response c.gtp_layer)))))

unless_failed-answered :
    (e : Option Error) (rest : Outcome ℕ)
    → answered (unless_failed e rest) ≡ (went_well e && answered rest)
unless_failed-answered none rest = refl
unless_failed-answered (some e) rest = refl

check_layer-answered :
    (elapsed : ℕ) (layer : Option GtpLayer)
    → answered (check_layer elapsed layer) ≡ is_response layer
check_layer-answered elapsed none = refl
check_layer-answered elapsed (some gtp) = ground arith

pub send_echo-answered : (c : EchoCalls) → answered (send_echo c) ≡ is_echoed c
unfolding send_echo
send_echo-answered c =
    let layer = check_layer c.elapsed_time c.gtp_layer in
    let read = unless_failed c.read_failure layer in
    let write = unless_failed c.write_failure read in
    let dial = unless_failed c.dial_failure write in
    let remote = unless_failed c.remote_failure dial in
    let local = unless_failed c.local_failure remote in
    rw
      (
        unless_failed-answered c.serialize_failure local,
        unless_failed-answered c.local_failure remote,
        unless_failed-answered c.remote_failure dial,
        unless_failed-answered c.dial_failure write,
        unless_failed-answered c.write_failure read,
        unless_failed-answered c.read_failure layer,
        check_layer-answered c.elapsed_time c.gtp_layer,
      )
      refl
