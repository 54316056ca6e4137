-- ===== src/Net/Cli.antt =====
-- crates/mandrake-net/src/cli.rs: the driver over the host's tools. How the host answers a command,
-- and what the command makes of it, is a parameter.
use mandrake.Common.{ℕ, Bool, true, false, List, [], ◌∷◌, ◌++◌, none, some, any}
use mandrake.Common.Text.{Text, codes, same_text}
use mandrake.Core.Shell.{Command, plain_command, privileged_command}
use mandrake.Net.{
  LinkKind, kind_text, InterfaceInfo, AddressInfo, LinkInfo, RouteInfo, AggrSpec, VlanSpec,
  VnicSpec, AddressSpec, RouteSpec, interface_of, Outcome, ok, err, unsupported, and_then,
}
use mandrake.Net.Ipadm.{show_if, show_addr}
use mandrake.Net.Dladm.{
  show_link, show_phys, show_phys_macs, show_aggr, show_aggr_ports, show_vlan, show_vnic,
}
use mandrake.Net.Assemble.{assemble}
use mandrake.Net.Netstat.{netstat_routes}
use mandrake.Net.Persistent.{persistent_routes, PersistentRoute, mark_persistent}
use mandrake.Net.Commands.{
  delete_subcommand, route_command, create_aggr_command, create_vlan_command, mtu_property,
  create_vnic_command, create_if_command, create_addr_command, dladm, ipadm,
}

module _ {H : Type 0} (run : Command → H → Outcome Text × H) where
  -- What is read from a command's output, and what comes after a step that went well.
  abbrev pub reading : {A : Type 0} → Command → (Text → Outcome A) → H → Outcome A × H
  reading cmd read h = let (answer, after) = run cmd h in (and_then answer read, after)

  unfoldable pub bind : {A B : Type 0} → Outcome A × H → (A → H → Outcome B × H) → Outcome B × H
  bind (ok a, h) f = f a h
  bind (err e, h) f = (err e, h)

  abbrev pub run_only : Command → H → Outcome (Unit {0}) × H
  run_only cmd h = reading cmd (λ out. ok tt) h

  unfoldable pub list_links : H → Outcome (List LinkInfo) × H
  unfolding bind
  list_links h =
      bind
        (reading (dladm (codes "show-link" ∷ []) (codes "link,class,mtu,state,bridge,over"))
          show_link h)
        (λ links h.
          bind
            (reading (dladm (codes "show-phys" ∷ []) (codes "link,media,state,speed,duplex,device"))
              show_phys h)
            (λ phys h.
              bind
                (reading
                  (dladm (codes "show-phys" ∷ codes "-m" ∷ [])
                    (codes "link,slot,address,inuse,client"))
                  show_phys_macs h)
                (λ macs h.
                  bind
                    (reading
                      (dladm (codes "show-aggr" ∷ [])
                        (codes "link,policy,addrpolicy,lacpactivity,lacptimer,flags"))
                      show_aggr h)
                    (λ aggrs h.
                      bind
                        (reading
                          (dladm (codes "show-aggr" ∷ codes "-x" ∷ [])
                            (codes "link,port,speed,duplex,state,address,portstate"))
                          show_aggr_ports h)
                        (λ ports h.
                          bind
                            (reading (dladm (codes "show-vlan" ∷ []) (codes "link,vid,over,flags"))
                              show_vlan h)
                            (λ vlans h.
                              bind
                                (reading
                                  (dladm (codes "show-vnic" ∷ [])
                                    (codes "link,over,speed,macaddress,macaddrtype,vid,zone"))
                                  show_vnic h)
                                (λ vnics h. (
                                  ok (
                                      assemble (record {
                                        links = links;
                                        phys = phys;
                                        macs = macs;
                                        aggrs = aggrs;
                                        ports = ports;
                                        vlans = vlans;
                                        vnics = vnics;
                                      })),
                                  h,
                                ))))))))

  unfoldable pub list_interfaces : H → Outcome (List InterfaceInfo) × H
  list_interfaces h =
      reading (ipadm (codes "show-if") (codes "ifname,class,state,current,persistent,over")) show_if
        h

  unfoldable pub list_addresses : H → Outcome (List AddressInfo) × H
  list_addresses h =
      reading (ipadm (codes "show-addr") (codes "addrobj,type,state,current,persistent,addr"))
        show_addr h

  -- A table of persistent routes that cannot be read counts as empty.
  abbrev or_no_routes : Outcome Text → List PersistentRoute
  or_no_routes (ok out) = persistent_routes out
  or_no_routes (err e) = []

  unfoldable pub list_routes : H → Outcome (List RouteInfo) × H
  unfolding bind
  list_routes h = bind (run (plain_command (codes "netstat") (codes "-rnv" ∷ [])) h) (λ out h.
      let (persistent, after) =
        run (plain_command (codes "route") (codes "-p" ∷ codes "show" ∷ [])) h in
      (ok (mark_persistent (or_no_routes persistent) (netstat_routes out)), after))

  unfoldable pub delete_link : Text → LinkKind → H → Outcome (Unit {0}) × H
  delete_link name kind h = elim (delete_subcommand kind) [
    | none ↦ (err (unsupported (kind_text kind ++ codes " links cannot be deleted")), h)
    | some sub ↦ run_only (privileged_command (codes "dladm") (sub ∷ name ∷ [])) h
  ]

  unfoldable pub set_mtu : Text → ℕ → H → Outcome (Unit {0}) × H
  set_mtu name mtu h =
      run_only
        (privileged_command (codes "dladm")
          (codes "set-linkprop" ∷ codes "-p" ∷ mtu_property mtu ∷ name ∷ []))
        h

  abbrev create_if : AddressSpec → Bool → H → Outcome (Unit {0}) × H
  create_if spec true h = (ok tt, h)
  create_if spec false h = run_only (create_if_command spec) h

  abbrev create_addr : Outcome Command → H → Outcome (Unit {0}) × H
  create_addr (ok cmd) h = run_only cmd h
  create_addr (err e) h = (err e, h)

  unfoldable pub create_address : AddressSpec → H → Outcome (Unit {0}) × H
  unfolding bind
  create_address spec h = bind (list_interfaces h) (λ interfaces h.
      bind (create_if spec (any (λ i. same_text i.name (interface_of spec.addrobj)) interfaces) h)
        (λ _ h. create_addr (create_addr_command spec) h))

  abbrev pub create_aggr : AggrSpec → H → Outcome (Unit {0}) × H
  create_aggr spec h = run_only (create_aggr_command spec) h

  abbrev pub create_vlan : VlanSpec → H → Outcome (Unit {0}) × H
  create_vlan spec h = run_only (create_vlan_command spec) h

  abbrev pub create_etherstub : Text → H → Outcome (Unit {0}) × H
  create_etherstub name h =
      run_only (privileged_command (codes "dladm") (codes "create-etherstub" ∷ name ∷ [])) h

  abbrev pub create_vnic : VnicSpec → H → Outcome (Unit {0}) × H
  create_vnic spec h = run_only (create_vnic_command spec) h

  abbrev pub delete_address : Text → H → Outcome (Unit {0}) × H
  delete_address name h =
      run_only (privileged_command (codes "ipadm") (codes "delete-addr" ∷ name ∷ [])) h

  abbrev pub add_route : RouteSpec → H → Outcome (Unit {0}) × H
  add_route spec h = run_only (route_command (codes "add") spec) h

  abbrev pub delete_route : RouteSpec → H → Outcome (Unit {0}) × H
  delete_route spec h = run_only (route_command (codes "delete") spec) h
