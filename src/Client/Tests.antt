-- ===== src/Client/Tests.antt =====
-- Probes and quoted words at concrete inputs.
use file_peeker.Base.{ℕ, ◌≡◌, ◌↔◌, ◌≢◌, true, none, some, List, [], ◌∷◌}
use file_peeker.Client.{Probe, release, mismatch}
use file_peeker.Client.Probing.{IsThisBuild, mismatch-none}
use file_peeker.Client.Quote.{quote, read_word, bare, read_word-quote}

abbrev running_probe : Probe
running_probe = record {
  installed = true;
  version = "0.1.0";
  client_protocol = 3;
  build = "release";
  source_hash = none;
  server_running = true;
}

mismatch-none_example : (mismatch (release "0.1.0") running_probe ≡ none) ↔ (
    (running_probe.installed ≡ true)
    × (running_probe.client_protocol ≡ 3)
    × IsThisBuild (release "0.1.0") running_probe)
mismatch-none_example = mismatch-none (release "0.1.0") running_probe

-- `it's $HOME`
abbrev risky : List ℕ
risky = 105 ∷ 116 ∷ 39 ∷ 115 ∷ 32 ∷ 36 ∷ 72 ∷ 79 ∷ 77 ∷ 69 ∷ []

read_word-quote_example : (read_word bare (quote risky) ≡ some risky) × (quote risky ≢ [])
read_word-quote_example = read_word-quote risky
