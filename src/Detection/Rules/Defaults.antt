-- ===== src/Detection/Rules/Defaults.antt =====
-- The default rules of src/cloudnative_threatguard/detection/rules.py, in the order of their registration.
use cloud_native_threat_guar.Prelude.{true, none, List, [], ◌∷◌}
use cloud_native_threat_guar.Detection.Rules.{DetectionRule}

abbrev pub shell_execution : DetectionRule
shell_execution = record {
  rule_id = "RUNTIME-001";
  name = "Interactive Shell Execution in Workload Container";
  description =
      "An interactive shell binary was spawned within an application container, indicating interactive access or post-exploitation execution.";
  severity = "CRITICAL";
  confidence = 98;
  mitre_technique = "T1059.004";
  mitre_tactic = "Execution";
  technique_name = "Command and Scripting Interpreter: Unix Shell";
  event_source = "tetragon";
  event_type = "process_exec";
  enabled = true;
  target_binaries =
      "sh" ∷ "bash" ∷ "dash" ∷ "zsh" ∷ "/bin/sh" ∷ "/bin/bash" ∷ "/bin/dash" ∷ "/bin/zsh" ∷ [];
  target_paths = [];
  predicate = none;
  false_positive_considerations =
      "Legitimate container entrypoint scripts or authorized kubectl exec debugging.";
  recommended_response =
      "Review container process parentage. Terminate offending shell process or isolate pod if unauthorized.";
}

abbrev pub network_utility : DetectionRule
network_utility = record {
  rule_id = "RUNTIME-002";
  name = "Suspicious Network Utility Ingress/Egress Tool";
  description =
      "A networking utility commonly used to stage secondary payloads, download external binaries, or establish reverse shells was executed.";
  severity = "HIGH";
  confidence = 92;
  mitre_technique = "T1105";
  mitre_tactic = "Command and Control";
  technique_name = "Ingress Tool Transfer";
  event_source = "tetragon";
  event_type = "process_exec";
  enabled = true;
  target_binaries =
      "curl" ∷ "wget" ∷ "nc" ∷ "netcat" ∷ "socat" ∷ "nmap" ∷ "/usr/bin/curl" ∷ "/usr/bin/wget" ∷ [];
  target_paths = [];
  predicate = none;
  false_positive_considerations =
      "Workload health checks or initialization scripts downloading assets during startup.";
  recommended_response =
      "Verify binary signature, destination IP/URL, and correlate with egress NetworkPolicy logs.";
}

abbrev pub reconnaissance : DetectionRule
reconnaissance = record {
  rule_id = "RUNTIME-003";
  name = "Host and Environment Reconnaissance Execution";
  description =
      "Standard reconnaissance binaries were executed to gather information on permissions, operating environment, or container architecture.";
  severity = "MEDIUM";
  confidence = 88;
  mitre_technique = "T1082";
  mitre_tactic = "Discovery";
  technique_name = "System Information Discovery";
  event_source = "tetragon";
  event_type = "process_exec";
  enabled = true;
  target_binaries =
      "whoami" ∷ "id" ∷ "uname" ∷ "ps" ∷ "env" ∷ "/usr/bin/whoami" ∷ "/usr/bin/id" ∷ "/bin/uname"
      ∷ [];
  target_paths = [];
  predicate = none;
  false_positive_considerations =
      "Automated application diagnostic routines or monitoring agent discovery scripts.";
  recommended_response =
      "Inspect process arguments and environment variables; monitor for subsequent lateral movement.";
}

abbrev pub sensitive_access : DetectionRule
sensitive_access = record {
  rule_id = "RUNTIME-004";
  name = "Sensitive Credential or Filesystem Access";
  description =
      "An attempt to read sensitive credential files or the Kubernetes ServiceAccount token was captured via kernel file-open tracing.";
  severity = "CRITICAL";
  confidence = 96;
  mitre_technique = "T1552.007";
  mitre_tactic = "Credential Access";
  technique_name = "Unsecured Credentials: Container and Resource Discovery";
  event_source = "tetragon";
  event_type = "file_access";
  enabled = true;
  target_binaries = [];
  target_paths =
      "/var/run/secrets/kubernetes.io/serviceaccount/token" ∷ "/etc/shadow" ∷ "/etc/gshadow"
      ∷ "/root/.ssh" ∷ [];
  predicate = none;
  false_positive_considerations =
      "Legitimate in-cluster Kubernetes client libraries querying the API server.";
  recommended_response =
      "Revoke compromised ServiceAccount token, rotate cluster secrets, and enforce automountServiceAccountToken: false.";
}

abbrev pub privilege_escalation : DetectionRule
privilege_escalation = record {
  rule_id = "RUNTIME-005";
  name = "Container Privilege Escalation Indicator";
  description =
      "Execution of binaries designed to manipulate namespaces, inspect or modify process capability bounds, or attempt container breakout.";
  severity = "CRITICAL";
  confidence = 95;
  mitre_technique = "T1068";
  mitre_tactic = "Privilege Escalation";
  technique_name = "Exploitation for Privilege Escalation";
  event_source = "tetragon";
  event_type = "priv_escalation";
  enabled = true;
  target_binaries =
      "nsenter" ∷ "unshare" ∷ "capsh" ∷ "chroot" ∷ "/usr/bin/nsenter" ∷ "/sbin/capsh" ∷ [];
  target_paths = [];
  predicate = none;
  false_positive_considerations =
      "Rare in production workloads; occasionally observed in low-level node debugging agents.";
  recommended_response =
      "Immediately quarantine the pod, cordon the hosting node, and inspect host dmesg/auditd logs.";
}

abbrev pub outbound_connection : DetectionRule
outbound_connection = record {
  rule_id = "RUNTIME-006";
  name = "Unexpected Outbound Network Connection";
  description =
      "An unexpected outbound network socket connection was established by the application workload.";
  severity = "HIGH";
  confidence = 90;
  mitre_technique = "T1071";
  mitre_tactic = "Command and Control";
  technique_name = "Application Layer Protocol";
  event_source = "tetragon";
  event_type = "network_connect";
  enabled = true;
  target_binaries = [];
  target_paths = [];
  predicate = none;
  false_positive_considerations =
      "Legitimate external API dependencies or external database endpoints.";
  recommended_response =
      "Verify destination domain in threat intel feeds; enforce strict egress NetworkPolicy.";
}

abbrev pub cryptomining : DetectionRule
cryptomining = record {
  rule_id = "RUNTIME-007";
  name = "Cryptocurrency Mining Process Execution";
  description =
      "A known cryptocurrency mining binary was executed inside an application container, indicating unauthorized resource hijacking.";
  severity = "CRITICAL";
  confidence = 96;
  mitre_technique = "T1496";
  mitre_tactic = "Impact";
  technique_name = "Resource Hijacking";
  event_source = "tetragon";
  event_type = "process_exec";
  enabled = true;
  target_binaries = "xmrig" ∷ "minerd" ∷ "ccminer" ∷ "cpuminer" ∷ "cgminer" ∷ "ethminer" ∷ [];
  target_paths = [];
  predicate = none;
  false_positive_considerations =
      "Legitimate GPU/CPU benchmarking tools sharing similar binary names; verify hash and destination pool.";
  recommended_response =
      "Terminate the process immediately, quarantine the pod, and inspect outbound connections for mining-pool endpoints.";
}

abbrev pub package_manager : DetectionRule
package_manager = record {
  rule_id = "RULE-K8S-007";
  name = "Unauthorized Package Manager Execution in Container";
  description =
      "Execution of package manager utilities (apt, apk, yum, pip) inside a running production container.";
  severity = "HIGH";
  confidence = 94;
  mitre_technique = "T1072";
  mitre_tactic = "Execution";
  technique_name = "Software Deployment Tools";
  event_source = "tetragon";
  event_type = "process_exec";
  enabled = true;
  target_binaries =
      "apt" ∷ "apt-get" ∷ "apk" ∷ "yum" ∷ "dnf" ∷ "pip" ∷ "/usr/bin/apt-get" ∷ "/sbin/apk" ∷ [];
  target_paths = [];
  predicate = none;
  false_positive_considerations =
      "Container build / docker build phases (should never execute in running production pods).";
  recommended_response =
      "Enforce read-only root filesystems and immutable container image policies.";
}

abbrev pub namespace_escape : DetectionRule
namespace_escape = record {
  rule_id = "RULE-K8S-008";
  name = "Pod Namespace Escape Attempt";
  description = "Use of setns or unshare syscalls attempting to join host Linux namespaces.";
  severity = "CRITICAL";
  confidence = 98;
  mitre_technique = "T1611";
  mitre_tactic = "Privilege Escalation";
  technique_name = "Escape to Host";
  event_source = "tetragon";
  event_type = "process_exec";
  enabled = true;
  target_binaries = "nsenter" ∷ "/usr/bin/nsenter" ∷ [];
  target_paths = [];
  predicate = none;
  false_positive_considerations =
      "Authorized node agent daemonsets (e.g. CNI plugins, CSI drivers).";
  recommended_response =
      "Terminate pod immediately; verify Gatekeeper hostPID and privileged constraints.";
}

abbrev pub violation_burst : DetectionRule
violation_burst = record {
  rule_id = "RULE-K8S-009";
  name = "Admission Policy Violation Burst";
  description =
      "Multiple rejected workload admission requests within a short time interval indicating probe testing or GitOps compromise.";
  severity = "HIGH";
  confidence = 91;
  mitre_technique = "T1610";
  mitre_tactic = "Defense Evasion";
  technique_name = "Deploy Container";
  event_source = "opa_gatekeeper";
  event_type = "admission_violation";
  enabled = true;
  target_binaries = [];
  target_paths = [];
  predicate = none;
  false_positive_considerations = "Developer misconfiguration during active deployment iterations.";
  recommended_response =
      "Audit API server audit logs for submitting identity and source IP address.";
}

-- `_initialize_default_rules` registers these.
abbrev pub default_rules : List DetectionRule
default_rules =
    shell_execution ∷ network_utility ∷ reconnaissance ∷ sensitive_access ∷ privilege_escalation
    ∷ outbound_connection ∷ cryptomining ∷ package_manager ∷ namespace_escape ∷ violation_burst ∷ []
