-- ===== src/Tests/Ssvcs.antt =====
-- backend/app/services/ssvc.py on concrete findings.
use cyber.Base.{◌≡◌, none}
use cyber.Tests.Findings.{exploited}
use cyber.Ssvc.Points.{automatable, automatable_ignores_cwe}

-- Cross-site scripting, CWE 79, or none.
automatable_ignores_cwe_example :
    automatable (record exploited { cwe = none }) none ≡ automatable exploited none
automatable_ignores_cwe_example = automatable_ignores_cwe exploited none none
